-- ===== src/Native/Token.antt =====
-- node/smartcontract/service/native/ont/utils.go and ong/ong.go: the token operations that the ONT
-- and ONG contracts share, over the cache of store.go. A failed operation has no state: the ledger
-- drops the cache of a transaction that fails.
pub mod Spec
pub mod Agreement
pub mod Refinement
pub mod Supply
pub mod Allowance
use layer.Base.{
  ℕ, ◌+◌, ◌-◌, ◌%◌, Bool, true, false, not, List, [], ◌∷◌, ◌++◌, if◌then◌else◌, ltb, ◌==◌,
  replicate, bytes_equal, Outcome, ok, err, ◌>>=◌, ◌>>◌, fail_if,
}
use layer.Common.SafeMath.{u64_mod}
use layer.Native.Item.{StorageItem, item_bytes}
use layer.Native.Unbind.{ont_total_supply}
use layer.Native.Store.{Db, Error, get_storage_uint64, gen_uint64_storage_item}

-- `State` and `TransferFrom` of ont/states.go.
pub record State : Type 0 where
  pub from : List ℕ
  pub to : List ℕ
  pub value : ℕ

pub record TransferFrom : Type 0 where
  pub sender : List ℕ
  pub from : List ℕ
  pub to : List ℕ
  pub value : ℕ

-- What the native service knows of the transaction.
pub record Service : Type 0 where
  pub contract : List ℕ
  pub operator : Bool
  pub check_witness : List ℕ → Bool
  pub min_ong_limit : ℕ

pub data TransferError : Type 0 where
  storage : Error → TransferError
  only_operator authentication_failed balance_insufficient approve_insufficient : TransferError
  too_small over_total_supply : TransferError

abbrev pub address_empty : List ℕ
address_empty = replicate 20 0

abbrev pub ong_total_supply : ℕ
ong_total_supply = 1000000000000000000

unfoldable pub is_layer2_addr : List ℕ → Bool
is_layer2_addr addr = bytes_equal addr address_empty

unfoldable pub gen_balance_key : List ℕ → List ℕ → List ℕ
gen_balance_key contract addr = contract ++ addr

unfoldable pub gen_approve_key : List ℕ → List ℕ → List ℕ → List ℕ
gen_approve_key contract from to = (contract ++ from) ++ to

unfoldable pub gen_transfer_from_key : List ℕ → TransferFrom → List ℕ
gen_transfer_from_key contract state = (contract ++ state.from) ++ state.sender

unfoldable pub get_to_uint64_storage_item : ℕ → ℕ → StorageItem
get_to_uint64_storage_item to_balance value =
    gen_uint64_storage_item ((to_balance + value) % u64_mod)

-- An error of the storage is passed on.
unfoldable pub lift : {A : Type 0} → Outcome Error A → Outcome TransferError A
lift (ok a) = ok a
lift (err e) = err (storage e)

-- The check at the head of `Transfer` and `TransferedFrom`: the operator's deposit, or `signer`.
unfoldable pub authorise : Service → List ℕ → List ℕ → Outcome TransferError (Unit {0})
authorise native from signer =
    if is_layer2_addr from
    then fail_if (not native.operator) only_operator
    else fail_if (not (native.check_witness signer)) authentication_failed

module _ {S : Type 0} (db : Db S) where
  unfoldable pub put_uint64 : S → List ℕ → ℕ → S
  put_uint64 s key value = db.put s key (item_bytes (gen_uint64_storage_item value))

  -- The end of `fromApprove` and of `fromTransfer`: what is left of `amount` after `value`.
  unfoldable pub put_rest : S → List ℕ → ℕ → ℕ → S
  put_rest s key amount value =
      if amount == value then db.delete s key else put_uint64 s key (amount - value)

  unfoldable pub from_approve : S → List ℕ → ℕ → Outcome TransferError S
  from_approve s key value = do
    approve_value ← lift (get_storage_uint64 db s key)
    fail_if (ltb approve_value value) approve_insufficient
        >> ok (put_rest s key approve_value value)

  unfoldable pub from_transfer : S → List ℕ → ℕ → Outcome TransferError (ℕ × S)
  from_transfer s key value = do
    from_balance ← lift (get_storage_uint64 db s key)
    fail_if (ltb from_balance value) balance_insufficient
        >> ok (from_balance, put_rest s key from_balance value)

  unfoldable pub to_transfer : S → List ℕ → ℕ → Outcome TransferError (ℕ × S)
  to_transfer s key value = do
    to_balance ← lift (get_storage_uint64 db s key)
    ok (to_balance, db.put s key (item_bytes (get_to_uint64_storage_item to_balance value)))

  -- The last step of both transfers: nothing is credited to the layer2 address.
  unfoldable pub credit : S → List ℕ → List ℕ → ℕ → Outcome TransferError (ℕ × S)
  credit s contract to value =
      if is_layer2_addr to then ok (0, s) else to_transfer s (gen_balance_key contract to) value

  unfoldable pub debit : S → List ℕ → List ℕ → ℕ → Outcome TransferError (ℕ × S)
  debit s contract from value =
      if is_layer2_addr from
      then ok (0, s)
      else from_transfer s (gen_balance_key contract from) value

  -- `Transfer`: the two balances before it, and the cache after it.
  unfoldable pub transfer : Service → S → State → Outcome TransferError (ℕ × ℕ × S)
  transfer native s state = authorise native state.from state.from >> (do
    d ← debit s native.contract state.from state.value
    c ← credit d.1 native.contract state.to state.value
    ok (d.0, c.0, c.1))

  -- `TransferedFrom`.
  unfoldable pub spend_allowance : S → List ℕ → TransferFrom → Outcome TransferError S
  spend_allowance s contract state =
      if is_layer2_addr state.from
      then ok s
      else from_approve s (gen_transfer_from_key contract state) state.value

  unfoldable pub transfered_from : Service → S → TransferFrom → Outcome TransferError (ℕ × ℕ × S)
  transfered_from native s state = authorise native state.from state.sender >> (do
    s' ← spend_allowance s native.contract state
    d ← debit s' native.contract state.from state.value
    c ← credit d.1 native.contract state.to state.value
    ok (d.0, c.0, c.1))

  -- The loop of `OngTransfer` over the decoded transfers.
  unfoldable pub ong_transfer : Service → S → List State → Outcome TransferError S
  ong_transfer native s [] = ok s
  ong_transfer native s (v ∷ vs) =
      fail_if (ltb v.value native.min_ong_limit) too_small
      >> (fail_if (ltb ong_total_supply v.value) over_total_supply
          >> (do t ← transfer native s v; ong_transfer native t.2 vs))

  -- `OngApprove`, after its argument is decoded.
  unfoldable pub ong_approve : Service → S → State → Outcome TransferError S
  ong_approve native s state =
      fail_if (ltb ong_total_supply state.value) over_total_supply
      >> (fail_if (not (native.check_witness state.from)) authentication_failed
          >> ok (put_uint64 s (gen_approve_key native.contract state.from state.to) state.value))

  -- `OngTransferFrom`, after its argument is decoded.
  unfoldable pub ong_transfer_from : Service → S → TransferFrom → Outcome TransferError S
  ong_transfer_from native s state =
      fail_if (ltb state.value native.min_ong_limit) too_small
      >> (fail_if (ltb ong_total_supply state.value) over_total_supply
          >> (do t ← transfered_from native s state; ok t.2))

  -- `OntApprove`, after its argument is decoded.
  unfoldable pub ont_approve : Service → S → State → Outcome TransferError S
  ont_approve native s state =
      fail_if (ltb ont_total_supply state.value) over_total_supply
      >> (fail_if (not (native.check_witness state.from)) authentication_failed
          >> ok (put_uint64 s (gen_approve_key native.contract state.from state.to) state.value))
