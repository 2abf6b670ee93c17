-- ===== src/TxPool.antt =====
-- node/txnpool/common/transaction_pool.go: the pool of verified transactions. The map from a hash
-- to an entry is a list of pairs, in the order that Go ranges over it; entries are never nil. The
-- lock is left out: each operation runs alone.
pub mod Recent
pub mod Check
pub mod Choice
pub mod Count
pub mod Keyed
pub mod Reach
pub mod Price
pub mod Drain
use layer.Base.{
  ℕ, suc, Bool, true, false, not, ◌&&◌, List, [], ◌∷◌, ◌++◌, map, length, ltb, leb, if◌then◌else◌,
  Option, none, some, bytes_equal,
}
use layer.Ledger.Transaction.{Transaction}

pub data VerifyType : Type 0 where
  stateless stateful : VerifyType

unfoldable pub is_stateful : VerifyType → Bool
is_stateful stateless = false
is_stateful stateful = true

pub record TxAttr : Type 0 where
  pub height : ℕ
  pub type : VerifyType
  pub err_code : ℕ

pub record TxEntry : Type 0 where
  pub tx : Transaction
  pub attrs : List TxAttr

abbrev pub TxPool : Type 0
TxPool = List (List ℕ × TxEntry)

pub record TxStatus : Type 0 where
  pub hash : List ℕ
  pub attrs : List TxAttr

pub record VerifyTxResult : Type 0 where
  pub tx : Transaction
  pub height : ℕ
  pub err_code : ℕ

pub record CheckBlkResult : Type 0 where
  pub verified_txs : List VerifyTxResult
  pub unverified_txs : List Transaction
  pub old_txs : List Transaction

-- `tp.txList[hash]`
unfoldable pub get_entry : List ℕ → TxPool → Option TxEntry
get_entry hash [] = none
get_entry hash (e ∷ pool) = if bytes_equal e.0 hash then some e.1 else get_entry hash pool

-- `delete(tp.txList, hash)`
unfoldable pub delete_entry : List ℕ → TxPool → TxPool
delete_entry hash [] = []
delete_entry hash (e ∷ pool) =
    let rest = delete_entry hash pool in if bytes_equal e.0 hash then rest else e ∷ rest

unfoldable pub contains_entry : Option TxEntry → Bool
contains_entry none = false
contains_entry (some e) = true

unfoldable pub add_tx_list : TxPool → TxEntry → Bool × TxPool
add_tx_list pool e =
    if contains_entry (get_entry e.tx.hash pool)
    then (false, pool)
    else (true, (e.tx.hash, e) ∷ pool)

unfoldable pub clean_transaction_list : TxPool → List Transaction → TxPool
clean_transaction_list pool [] = pool
clean_transaction_list pool (tx ∷ txs) =
    clean_transaction_list
      (if contains_entry (get_entry tx.hash pool) then delete_entry tx.hash pool else pool) txs

unfoldable pub del_tx_list : TxPool → Transaction → Bool × TxPool
del_tx_list pool tx =
    if contains_entry (get_entry tx.hash pool)
    then (true, delete_entry tx.hash pool)
    else (false, pool)

unfoldable pub compare_tx_height : List TxAttr → ℕ → Bool
compare_tx_height [] height = true
compare_tx_height (v ∷ attrs) height =
    let rest = compare_tx_height attrs height in
    if is_stateful v.type && ltb v.height height then false else rest

-- The loop of `GetTxPool`, at `num` entries chosen.
unfoldable pub choose_entries : List TxEntry → ℕ → ℕ → ℕ → List TxEntry × List Transaction
choose_entries [] num count height = ([], [])
choose_entries (e ∷ entries) num count height =
    let valid = compare_tx_height e.attrs height in
    let rest = choose_entries entries (if valid then suc num else num) count height in
    if not valid
    then (rest.0, e.tx ∷ rest.1)
    else if leb count (suc num)
    then (e ∷ [], [])
    else (e ∷ rest.0, rest.1)

-- `count`, from the number of entries, the configured number and the flag.
unfoldable pub entry_count : ℕ → ℕ → Bool → ℕ
entry_count n max by_count =
    let counted = by_count && ltb 0 max in if not counted then n else if ltb n max then n else max

-- The sort by the network fee and the configured `MaxTxInBlock` are arguments.
unfoldable pub get_tx_pool :
    (List TxEntry → List TxEntry) → ℕ → TxPool → Bool → ℕ → List TxEntry × List Transaction
get_tx_pool sort max pool by_count height =
    choose_entries (sort (map (λ (e : List ℕ × TxEntry). e.1) pool)) 0
      (entry_count (length pool) max by_count) height

unfoldable pub entry_transaction : Option TxEntry → Option Transaction
entry_transaction none = none
entry_transaction (some e) = some e.tx

unfoldable pub get_transaction : TxPool → List ℕ → Option Transaction
get_transaction pool hash = entry_transaction (get_entry hash pool)

unfoldable pub entry_status : List ℕ → Option TxEntry → Option TxStatus
entry_status hash none = none
entry_status hash (some e) = some (record { hash = hash; attrs = e.attrs })

unfoldable pub get_tx_status : TxPool → List ℕ → Option TxStatus
get_tx_status pool hash = entry_status hash (get_entry hash pool)

unfoldable pub get_transaction_count : TxPool → ℕ
get_transaction_count pool = length pool

-- The loop over `txEntry.Attrs` in `GetUnverifiedTxs`: what it appends to `res.VerifiedTxs`.
unfoldable pub stateful_results : Transaction → List TxAttr → List VerifyTxResult
stateful_results tx [] = []
stateful_results tx (v ∷ attrs) =
    let rest = stateful_results tx attrs in
    if is_stateful v.type
    then record { tx = tx; height = v.height; err_code = v.err_code } ∷ []
    else rest

-- The body of the loop of `GetUnverifiedTxs`, at the entry of the transaction.
unfoldable pub check_entry :
    TxPool → Transaction → ℕ → Option TxEntry → CheckBlkResult → CheckBlkResult × TxPool
check_entry pool tx height none res =
    (record res { unverified_txs = res.unverified_txs ++ (tx ∷ []) }, pool)
check_entry pool tx height (some e) res =
    if not (compare_tx_height e.attrs height)
    then (record res { old_txs = res.old_txs ++ (e.tx ∷ []) }, delete_entry tx.hash pool)
    else (record res { verified_txs = res.verified_txs ++ stateful_results tx e.attrs }, pool)

unfoldable pub check_entries :
    TxPool → List Transaction → ℕ → CheckBlkResult → CheckBlkResult × TxPool
check_entries pool [] height res = (res, pool)
check_entries pool (tx ∷ txs) height res =
    let next = check_entry pool tx height (get_entry tx.hash pool) res in
    check_entries next.1 txs height next.0

unfoldable pub get_unverified_txs : TxPool → List Transaction → ℕ → CheckBlkResult × TxPool
get_unverified_txs pool txs height =
    check_entries pool txs height (record { verified_txs = []; unverified_txs = []; old_txs = [] })

-- The loop of `RemoveTxsBelowGasPrice`, over the entries that the pool has at its start.
unfoldable pub remove_below : TxPool → TxPool → ℕ → TxPool
remove_below [] pool gas_price = pool
remove_below (e ∷ entries) pool gas_price =
    remove_below entries
      (if ltb e.1.tx.unsigned.gas_price gas_price then delete_entry e.1.tx.hash pool else pool)
      gas_price

unfoldable pub remove_txs_below_gas_price : TxPool → ℕ → TxPool
remove_txs_below_gas_price pool gas_price = remove_below pool pool gas_price

-- The loop of `Remain`, over the entries that the pool has at its start.
unfoldable pub remain_loop : TxPool → TxPool → List Transaction × TxPool
remain_loop [] pool = ([], pool)
remain_loop (e ∷ entries) pool =
    let rest = remain_loop entries (delete_entry e.1.tx.hash pool) in (e.1.tx ∷ rest.0, rest.1)

unfoldable pub remain : TxPool → List Transaction × TxPool
remain pool = remain_loop pool pool
