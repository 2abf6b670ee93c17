-- ===== src/Native/Ong/Calls.antt =====
-- The handlers of ONG on encoded arguments do to the balances what the specification says.
use layer.Base.{ℕ, [], ◌∷◌, ◌+◌, ◌≡◌, arith, true, ltb, refl, List, length, All, ok, map_err}
use layer.Base.Int.{pos, to_signed}
use layer.Common.Source.Reading.{InMemory}
use layer.Common.Source.Codec.{Reads-whole}
use layer.Common.SafeMath.{u64_mod}
use layer.Common.BigInt.{big_int_from_neo_bytes}
use layer.Common.BigInt.RoundTrip.{big_int_from_neo_bytes-big_int_to_neo_bytes}
use layer.Native.Store.{Db}
use layer.Native.Args.{transfers_bytes, deserialize_transfers, encode_address, decode_address}
use layer.Native.Args.RoundTrip.{
  IsState, IsInt64, deserialize_transfers-Reads, decode_address-Reads,
}
use layer.Native.Token.{State}
use layer.Native.Token.Spec.{Balances, all_moved}
use layer.Native.Token.Agreement.{Agree, Agree-map_err, Agree-then}
use layer.Native.Token.Refinement.{IsAddress, HasAddresses, Represents, ong_transfer-Agree}
use layer.Native.Execution.{Execution, token, service_of}
use layer.Native.Ong.{byte_true, amount_bytes, ong_transfer_call, balance_of_call}

amount_bytes_lem : (v : ℕ) → IsInt64 v → big_int_from_neo_bytes (amount_bytes v) ≡ pos v
unfolding amount_bytes to_signed
amount_bytes_lem v h =
    let positive : ltb (v + v) u64_mod ≡ true = ground arith in
    rw positive (big_int_from_neo_bytes-big_int_to_neo_bytes (pos v))

module _ {S : Type 0} (db : Db S) where
  IsState-HasAddresses : (states : List State) → All IsState states → All (HasAddresses db) states
  IsState-HasAddresses [] all = tt
  IsState-HasAddresses (v ∷ vs) (h, all) = ((h.0, h.1), IsState-HasAddresses vs all)

  -- Over a cache that holds the balances `bal` of the running contract, and given the bytes,
  -- fewer than 2 ^ 63, of fewer than 2 ^ 63 transfers between addresses of 20 bytes with values
  -- below 2 ^ 63, `OngTransfer` does what the specification `all_moved` does with the transfers:
  -- both fail with the same error, or `OngTransfer` returns true and the new cache holds the new
  -- balances.
  pub ong_transfer_call-Agree :
      (ex : Execution) (s : S) (bal : Balances) (states : List State)
      → Represents db ex.current_context s bal
      → All IsState states
      → IsInt64 (length states)
      → InMemory (transfers_bytes states)
      → Agree
          (λ r bal'. (r.0 ≡ byte_true) × Represents db ex.current_context r.1 bal')
          (ong_transfer_call db ex s (transfers_bytes states))
          (map_err token (all_moved (service_of ex) bal states))
  unfolding ong_transfer_call service_of
  ong_transfer_call-Agree ex s bal states r all few m =
      rw (Reads-whole deserialize_transfers (deserialize_transfers-Reads states all few) m) (
        Agree-then (λ s'. (byte_true, s'))
          (Agree-map_err token (
            ong_transfer-Agree db (service_of ex) s bal states r (IsState-HasAddresses states all)))
          (λ s' bal' h. (refl, h)))

  -- Over a cache that holds the balances `bal` of the running contract, for an address of 20
  -- bytes with a balance below 2 ^ 63, `GetBalanceValue` of the encoded address, fewer than 2 ^
  -- 63 bytes, succeeds with bytes from which `BigIntFromNeoBytes` reads the balance.
  pub balance_of_call-Represents :
      (ex : Execution) (s : S) (bal : Balances) (a : List ℕ)
      → Represents db ex.current_context s bal
      → IsAddress a
      → IsInt64 (bal a)
      → InMemory (encode_address a)
      → (out : List ℕ) × (balance_of_call db ex s (encode_address a) ≡ ok out)
        × (big_int_from_neo_bytes out ≡ pos (bal a))
  unfolding balance_of_call
  balance_of_call-Represents ex s bal a r h small m = (
    amount_bytes (bal a),
    rw (Reads-whole decode_address (decode_address-Reads a h) m, r.reads a h) refl,
    amount_bytes_lem (bal a) small,
  )
