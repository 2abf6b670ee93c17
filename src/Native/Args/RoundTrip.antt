-- ===== src/Native/Args/RoundTrip.antt =====
-- Encoded arguments are read back, and the numbers for which this fails.
use layer.Base.{
  ℕ, ◌+◌, ◌%◌, ◌<◌, ◌≤◌, ◌≡◌, refl, ◌∙◌, true, false, List, [], ◌∷◌, ◌++◌, length, All, ok, err,
  ltb, ◌==◌, arith,
}
use layer.Base.Int.{to_signed}
use layer.Common.SafeMath.{u64_mod}
use layer.Common.Bytes.{var_bytes}
use layer.Common.BigInt.{big_int_to_neo_bytes}
use layer.Common.BigInt.RoundTrip.{big_int_from_neo_bytes-big_int_to_neo_bytes}
use layer.Common.Source.{ZeroCopySource, next_var_bytes, new_source}
use layer.Common.Source.Codec.{Reads, Reads-then, Reads-end, Reads-nothing, Reads-whole}
use layer.Common.Source.Reading.{reading, InMemory, next_var_bytes-reading}
use layer.Native.Token.{State, TransferFrom}
use layer.Native.Token.Refinement.{IsAddress}
use layer.Native.Args.{
  negative_number, encode_address, encode_var_uint, regular, to_uint64, decode_var_uint,
  address_parse_from_bytes, decode_address, state_bytes, deserialize_state, transfer_from_bytes,
  deserialize_transfer_from, states_bytes, transfers_bytes, deserialize_states,
  deserialize_transfers,
}

-- A number that `int64` does not make negative.
abbrev pub IsInt64 : ℕ → Type 0
IsInt64 v = v < 0x8000_0000_0000_0000

regular-reading :
    (pre rest p : List ℕ)
    → InMemory (pre ++ (var_bytes p ++ rest))
    → regular (next_var_bytes (reading pre (var_bytes p ++ rest)))
      ≡ ok (p, reading (pre ++ var_bytes p) rest)
unfolding regular
regular-reading pre rest p m = rw (next_var_bytes-reading pre rest p m)

number-reading :
    (pre rest : List ℕ) (v : ℕ)
    → InMemory (pre ++ (encode_var_uint v ++ rest))
    → decode_var_uint (reading pre (encode_var_uint v ++ rest))
      ≡ to_uint64 (to_signed u64_mod v) (reading (pre ++ encode_var_uint v) rest)
unfolding decode_var_uint encode_var_uint
number-reading pre rest v m =
    let z = to_signed u64_mod v in
    rw (
      regular-reading pre rest (big_int_to_neo_bytes z) m,
      big_int_from_neo_bytes-big_int_to_neo_bytes z,
    )

to_uint64-small :
    (v : ℕ) (source : ZeroCopySource)
    → IsInt64 v
    → to_uint64 (to_signed u64_mod v) source ≡ ok (v, source)
unfolding to_uint64 to_signed
to_uint64-small v source h =
    let positive : ltb (v + v) u64_mod ≡ true = ground arith in
    let same : v % u64_mod ≡ v = omega arith in rw (positive, to_uint64, same)

to_uint64-large :
    (v : ℕ) (source : ZeroCopySource)
    → 0x8000_0000_0000_0000 ≤ v
    → to_uint64 (to_signed u64_mod v) source ≡ err negative_number
unfolding to_uint64 to_signed
to_uint64-large v source h =
    let negative : ltb (v + v) u64_mod ≡ false = ground arith in rw (negative, to_uint64)

pub decode_var_uint-Reads : (v : ℕ) → IsInt64 v → Reads decode_var_uint (encode_var_uint v) v
decode_var_uint-Reads v h pre rest m =
    number-reading pre rest v m ∙ to_uint64-small v (reading (pre ++ encode_var_uint v) rest) h

-- A number from 2 ^ 63 to 2 ^ 64 - 1 that `EncodeVarUint` has written, in data shorter than 2 ^
-- 63, is refused by `DecodeVarUint` as negative.
pub decode_var_uint-encode_var_uint :
    (pre rest : List ℕ) (v : ℕ)
    → 0x8000_0000_0000_0000 ≤ v
    → v < u64_mod
    → InMemory (pre ++ (encode_var_uint v ++ rest))
    → decode_var_uint (reading pre (encode_var_uint v ++ rest)) ≡ err negative_number
decode_var_uint-encode_var_uint pre rest v h u m =
    number-reading pre rest v m ∙ to_uint64-large v (reading (pre ++ encode_var_uint v) rest) h

pub decode_address-Reads :
    (addr : List ℕ) → IsAddress addr → Reads decode_address (encode_address addr) addr
unfolding decode_address encode_address address_parse_from_bytes
decode_address-Reads addr h pre rest m =
    let whole : (length addr == 20) ≡ true = ground arith in
    rw (regular-reading pre rest addr m, whole)

-- The fields of a state that the contracts can be given.
abbrev pub IsState : State → Type 0
IsState state = IsAddress state.from × IsAddress state.to × IsInt64 state.value

pub deserialize_state-Reads :
    (state : State) → IsState state → Reads deserialize_state (state_bytes state) state
unfolding deserialize_state state_bytes
deserialize_state-Reads state (hf, ht, hv) =
    Reads-then decode_address _ (decode_address-Reads state.from hf) (
      Reads-then decode_address _ (decode_address-Reads state.to ht)
        (Reads-end decode_var_uint _ (decode_var_uint-Reads state.value hv) (λ s. refl)))

abbrev pub IsTransferFrom : TransferFrom → Type 0
IsTransferFrom state =
    IsAddress state.sender × IsAddress state.from × IsAddress state.to × IsInt64 state.value

pub deserialize_transfer_from-Reads :
    (state : TransferFrom)
    → IsTransferFrom state
    → Reads deserialize_transfer_from (transfer_from_bytes state) state
unfolding deserialize_transfer_from transfer_from_bytes
deserialize_transfer_from-Reads state (hs, hf, ht, hv) =
    Reads-then decode_address _ (decode_address-Reads state.sender hs) (
      Reads-then decode_address _ (decode_address-Reads state.from hf) (
        Reads-then decode_address _ (decode_address-Reads state.to ht)
          (Reads-end decode_var_uint _ (decode_var_uint-Reads state.value hv) (λ s. refl))))

deserialize_states-Reads :
    (states : List State)
    → All IsState states
    → Reads (deserialize_states (length states)) (states_bytes states) states
unfolding deserialize_states states_bytes
deserialize_states-Reads [] all = Reads-nothing []
deserialize_states-Reads (v ∷ vs) (h, all) =
    Reads-then deserialize_state _ (deserialize_state-Reads v h)
      (Reads-end (deserialize_states (length vs)) _ (deserialize_states-Reads vs all) (λ s. refl))

pub deserialize_transfers-Reads :
    (states : List State)
    → All IsState states
    → IsInt64 (length states)
    → Reads deserialize_transfers (transfers_bytes states) states
unfolding deserialize_transfers transfers_bytes
deserialize_transfers-Reads states all h =
    Reads-then decode_var_uint _ (decode_var_uint-Reads (length states) h)
      (deserialize_states-Reads states all)

-- Fewer than 2 ^ 63 transfers between addresses of 20 bytes, with values below 2 ^ 63, are read
-- back from their bytes, where these are fewer than 2 ^ 63, and the source stands at their end.
pub deserialize_transfers-transfers_bytes :
    (states : List State)
    → All IsState states
    → IsInt64 (length states)
    → InMemory (transfers_bytes states)
    → deserialize_transfers (new_source (transfers_bytes states))
      ≡ ok (states, record { s = transfers_bytes states; off = length (transfers_bytes states) })
deserialize_transfers-transfers_bytes states all h m =
    Reads-whole deserialize_transfers (deserialize_transfers-Reads states all h) m
