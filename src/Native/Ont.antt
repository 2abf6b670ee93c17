-- ===== src/Native/Ont.antt =====
-- node/smartcontract/service/native/ont/ont.go: the handlers of the ONT contract, from the bytes of
-- their argument to the bytes of their result, and the ONG that a change of a balance grants.
pub mod Grant
pub mod Allowed
pub mod Shares
pub mod Init
use layer.Base.{
  ℕ, zero, suc, ◌+◌, ◌-◌, ◌%◌, Bool, true, false, not, Option, none, some, List, [], ◌∷◌, ◌++◌, ltb,
  leb, ◌==◌, if◌then◌else◌, bytes_equal, Outcome, ok, err, ◌>>=◌, ◌>>◌, fail_if, map_err,
}
use layer.Common.SafeMath.{u64_mod, safe_add}
use layer.Common.Source.{ZeroCopySource, new_source, next_var_bytes}
use layer.Native.Item.{item_bytes}
use layer.Native.Unbind.{ont_total_supply, calc_unbind_ong}
use layer.Native.Store.{Db, get_storage_uint64, get_storage_uint32, gen_uint32_storage_item}
use layer.Native.Args.{
  regular, decode_address, decode_var_uint, state_bytes, deserialize_state,
  deserialize_transfer_from, deserialize_transfers,
}
use layer.Native.Token.{
  State, TransferFrom, transfer, transfered_from, ont_approve, put_uint64, gen_balance_key,
  gen_approve_key, over_total_supply,
}
use layer.Native.Execution.{
  Execution, CallError, argument, token, stored, already_initialised, wrong_config, wrong_timestamp,
  panicked, push_context, service_of,
}
use layer.Native.Ong.{
  byte_true, byte_false, ong_contract_address, gen_total_supply_key, ong_approve_call,
}

-- `time.Date(2018, time.June, 30, 0, 0, 0, 0, time.UTC).Unix()`
abbrev pub genesis_block_timestamp : ℕ
genesis_block_timestamp = 1530316800

-- "unboundTimeOffset"
abbrev pub unbound_time_offset : List ℕ
unbound_time_offset =
    117 ∷ 110 ∷ 98 ∷ 111 ∷ 117 ∷ 110 ∷ 100 ∷ 84 ∷ 105 ∷ 109 ∷ 101 ∷ 79 ∷ 102 ∷ 102 ∷ 115 ∷ 101 ∷ 116
    ∷ []

unfoldable pub gen_address_unbound_offset_key : List ℕ → List ℕ → List ℕ
gen_address_unbound_offset_key contract address = (contract ++ unbound_time_offset) ++ address

-- `distribute[addr] += value`: the map as its entries.
unfoldable pub add_share : List (List ℕ × ℕ) → List ℕ → ℕ → List (List ℕ × ℕ)
add_share [] addr value = (addr, value) ∷ []
add_share (share ∷ shares) addr value =
    let rest = add_share shares addr value in
    if bytes_equal share.0 addr
    then (share.0, (share.1 + value) % u64_mod) ∷ shares
    else share ∷ rest

-- The loop of `OntInit`, in num rounds: the map and the sum.
unfoldable pub read_shares :
    ℕ → List (List ℕ × ℕ) → ℕ → ZeroCopySource → Outcome CallError (List (List ℕ × ℕ) × ℕ)
read_shares zero distribute sum input = ok (distribute, sum)
read_shares (suc n) distribute sum input = do
  addr ← map_err argument (decode_address input)
  value ← map_err argument (decode_var_uint addr.1)
  let added = safe_add sum value.0
  fail_if added.1 wrong_config
      >> read_shares n (add_share distribute addr.0 value.0) added.0 value.1

-- The map that `OntInit` reads from its input, and the sum.
unfoldable pub read_distribution : List ℕ → Outcome CallError (List (List ℕ × ℕ) × ℕ)
read_distribution input = do
  buf ← map_err argument (regular (next_var_bytes (new_source input)))
  num ← map_err argument (decode_var_uint (new_source buf.0))
  read_shares num.0 [] 0 num.1

module _ {S : Type 0} (db : Db S) where
  unfoldable pub put_shares : S → List ℕ → List (List ℕ × ℕ) → S
  put_shares s contract [] = s
  put_shares s contract (share ∷ shares) =
      put_shares (put_uint64 db s (gen_balance_key contract share.0) share.1) contract shares

  -- The part of `OntInit` behind the test for an earlier one. Go visits the entries of the map in
  -- any order; the keys that are put are different.
  unfoldable pub distribute_supply : S → List ℕ → List ℕ → Outcome CallError (List ℕ × S)
  distribute_supply s contract input = do
    shares ← read_distribution input
    fail_if (not (shares.1 == ont_total_supply)) wrong_config
        >> ok (
          byte_true,
          put_uint64 db (put_shares s contract shares.0) (gen_total_supply_key contract)
              ont_total_supply,
        )

  unfoldable pub ont_init_call : Execution → S → List ℕ → Outcome CallError (List ℕ × S)
  ont_init_call ex s input = do
    amount ← map_err stored (get_storage_uint64 db s (gen_total_supply_key ex.current_context))
    fail_if (ltb 0 amount) already_initialised >> distribute_supply s ex.current_context input

  unfoldable pub get_unbound_offset : S → List ℕ → List ℕ → Outcome CallError ℕ
  get_unbound_offset s contract address =
      map_err stored (get_storage_uint32 db s (gen_address_unbound_offset_key contract address))

  unfoldable pub get_approve_args : S → List ℕ → List ℕ → List ℕ → ℕ → Outcome CallError (List ℕ)
  get_approve_args s contract ong_contract address value = do
    state_value ←
        map_err stored (get_storage_uint64 db s (gen_approve_key ong_contract contract address))
    ok (
        state_bytes
          (record { from = contract; to = address; value = (value + state_value) % u64_mod }))

  -- The grant itself, through `NativeCall(OngContractAddress, "approve", args)`.
  unfoldable pub approve_unbound : Execution → S → List ℕ → Option ℕ → Outcome CallError S
  approve_unbound ex s address none = err panicked
  approve_unbound ex s address (some value) = do
    args ← get_approve_args s ex.current_context ong_contract_address address value
    called ← ong_approve_call db (push_context ex ong_contract_address) s args
    ok called.1

  unfoldable pub put_offset : S → List ℕ → List ℕ → ℕ → S
  put_offset s contract address offset =
      db.put s (gen_address_unbound_offset_key contract address)
        (item_bytes (gen_uint32_storage_item offset))

  -- Nothing is granted for an empty balance.
  unfoldable pub grant_balance : Execution → S → List ℕ → ℕ → ℕ → ℕ → Outcome CallError S
  grant_balance ex s address balance start end =
      if balance == 0
      then ok s
      else approve_unbound ex s address (calc_unbind_ong balance start end)

  -- `grantOng` behind its tests on the two offsets.
  unfoldable pub grant_between : Execution → S → List ℕ → ℕ → ℕ → ℕ → Outcome CallError S
  grant_between ex s address balance start end = do
    s' ← grant_balance ex s address balance start end
    ok (put_offset s' ex.current_context address end)

  unfoldable pub grant_since : Execution → S → List ℕ → ℕ → ℕ → Outcome CallError S
  grant_since ex s address balance start =
      let end = ex.time - genesis_block_timestamp in
      if leb ex.time genesis_block_timestamp
      then ok s
      else if ltb end start
      then (if ex.pre_exec then ok s else err wrong_timestamp)
      else if end == start
      then ok s
      else grant_between ex s address balance start end

  unfoldable pub grant_ong : Execution → S → List ℕ → ℕ → Outcome CallError S
  grant_ong ex s address balance = do
    start ← get_unbound_offset s ex.current_context address
    grant_since ex s address balance start

  -- `Transfer` or `TransferedFrom`, then the grants for both sides.
  unfoldable pub grant_both : Execution → List ℕ → List ℕ → ℕ × ℕ × S → Outcome CallError S
  grant_both ex from to t = do s' ← grant_ong ex t.2 from t.0; grant_ong ex s' to t.1

  unfoldable pub ont_transfer : Execution → S → List State → Outcome CallError S
  ont_transfer ex s [] = ok s
  ont_transfer ex s (v ∷ vs) = elim (v.value == 0) [
    | true ↦ ont_transfer ex s vs
    | false ↦ fail_if (ltb ont_total_supply v.value) (token over_total_supply) >> (do
      t ← map_err token (transfer db (service_of ex) s v)
      s' ← grant_both ex v.from v.to t
      ont_transfer ex s' vs)
  ]

  unfoldable pub ont_transfer_call : Execution → S → List ℕ → Outcome CallError (List ℕ × S)
  ont_transfer_call ex s input = do
    transfers ← map_err argument (deserialize_transfers (new_source input))
    s' ← ont_transfer ex s transfers.0
    ok (byte_true, s')

  -- `OntTransferFrom`, after its argument is decoded.
  unfoldable pub ont_transfer_from : Execution → S → TransferFrom → Outcome CallError (List ℕ × S)
  ont_transfer_from ex s state =
      if state.value == 0
      then ok (byte_false, s)
      else (fail_if (ltb ont_total_supply state.value) (token over_total_supply) >> (do
        t ← map_err token (transfered_from db (service_of ex) s state)
        s' ← grant_both ex state.from state.to t
        ok (byte_true, s')))

  unfoldable pub ont_transfer_from_call : Execution → S → List ℕ → Outcome CallError (List ℕ × S)
  ont_transfer_from_call ex s input = do
    state ← map_err argument (deserialize_transfer_from (new_source input))
    ont_transfer_from ex s state.0

  unfoldable pub ont_approve_call : Execution → S → List ℕ → Outcome CallError (List ℕ × S)
  ont_approve_call ex s input = do
    state ← map_err argument (deserialize_state (new_source input))
    s' ← map_err token (ont_approve db (service_of ex) s state.0)
    ok (byte_true, s')
