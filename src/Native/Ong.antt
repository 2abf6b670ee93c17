-- ===== src/Native/Ong.antt =====
-- node/smartcontract/service/native/ong/ong.go: the handlers of the ONG contract, from the bytes of
-- their argument to the bytes of their result.
pub mod Calls
use layer.Base.{
  ℕ, ◌%◌, List, [], ◌∷◌, ◌++◌, replicate, ltb, Outcome, ok, ◌>>=◌, ◌>>◌, fail_if, map_err,
}
use layer.Base.Int.{to_signed}
use layer.Common.SafeMath.{u64_mod}
use layer.Common.BigInt.{big_int_to_neo_bytes}
use layer.Common.Source.{new_source}
use layer.Native.Store.{Db, get_storage_uint64}
use layer.Native.Args.{
  decode_address, deserialize_state, deserialize_transfer_from, deserialize_transfers,
}
use layer.Native.Token.{
  ong_total_supply, ong_transfer, ong_approve, ong_transfer_from, put_uint64, gen_balance_key,
  gen_approve_key,
}
use layer.Native.Execution.{
  Execution, CallError, argument, token, stored, already_initialised, service_of,
}

abbrev pub byte_true : List ℕ
byte_true = 1 ∷ []

abbrev pub byte_false : List ℕ
byte_false = 0 ∷ []

abbrev pub ont_contract_address : List ℕ
ont_contract_address = replicate 19 0 ++ (1 ∷ [])

abbrev pub ong_contract_address : List ℕ
ong_contract_address = replicate 19 0 ++ (2 ∷ [])

-- "totalSupply"
abbrev pub total_supply_name : List ℕ
total_supply_name = 116 ∷ 111 ∷ 116 ∷ 97 ∷ 108 ∷ 83 ∷ 117 ∷ 112 ∷ 112 ∷ 108 ∷ 121 ∷ []

unfoldable pub gen_total_supply_key : List ℕ → List ℕ
gen_total_supply_key contract = contract ++ total_supply_name

-- `common.BigIntToNeoBytes(big.NewInt(int64(amount)))`
unfoldable pub amount_bytes : ℕ → List ℕ
amount_bytes amount = big_int_to_neo_bytes (to_signed u64_mod amount)

module _ {S : Type 0} (db : Db S) where
  unfoldable pub ong_init_call : Execution → S → Outcome CallError (List ℕ × S)
  ong_init_call ex s = do
    amount ← map_err stored (get_storage_uint64 db s (gen_total_supply_key ex.current_context))
    let supplied = put_uint64 db s (gen_total_supply_key ex.current_context) ong_total_supply
    let granted =
        put_uint64 db supplied (gen_balance_key ex.current_context ont_contract_address)
          ong_total_supply
    fail_if (ltb 0 amount) already_initialised >> ok (byte_true, granted)

  unfoldable pub ong_transfer_call : Execution → S → List ℕ → Outcome CallError (List ℕ × S)
  ong_transfer_call ex s input = do
    transfers ← map_err argument (deserialize_transfers (new_source input))
    s' ← map_err token (ong_transfer db (service_of ex) s transfers.0)
    ok (byte_true, s')

  unfoldable pub ong_approve_call : Execution → S → List ℕ → Outcome CallError (List ℕ × S)
  ong_approve_call ex s input = do
    state ← map_err argument (deserialize_state (new_source input))
    s' ← map_err token (ong_approve db (service_of ex) s state.0)
    ok (byte_true, s')

  unfoldable pub ong_transfer_from_call : Execution → S → List ℕ → Outcome CallError (List ℕ × S)
  ong_transfer_from_call ex s input = do
    state ← map_err argument (deserialize_transfer_from (new_source input))
    s' ← map_err token (ong_transfer_from db (service_of ex) s state.0)
    ok (byte_true, s')

  unfoldable pub total_supply_call : Execution → S → Outcome CallError (List ℕ)
  total_supply_call ex s = do
    amount ← map_err stored (get_storage_uint64 db s (gen_total_supply_key ex.current_context))
    ok (amount_bytes amount)

  -- `GetBalanceValue` of ont/ont.go, with TRANSFER_FLAG and with APPROVE_FLAG.
  unfoldable pub balance_of_call : Execution → S → List ℕ → Outcome CallError (List ℕ)
  balance_of_call ex s input = do
    from ← map_err argument (decode_address (new_source input))
    amount ← map_err stored (get_storage_uint64 db s (gen_balance_key ex.current_context from.0))
    ok (amount_bytes amount)

  unfoldable pub allowance_call : Execution → S → List ℕ → Outcome CallError (List ℕ)
  allowance_call ex s input = do
    from ← map_err argument (decode_address (new_source input))
    to ← map_err argument (decode_address from.1)
    amount ←
        map_err stored (get_storage_uint64 db s (gen_approve_key ex.current_context from.0 to.0))
    ok (amount_bytes amount)
