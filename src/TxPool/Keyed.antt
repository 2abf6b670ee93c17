-- ===== src/TxPool/Keyed.antt =====
-- The entries of the pool of node/txnpool/common/transaction_pool.go stand under their hashes.
use layer.Base.{
  ℕ, ◌≡◌, refl, ap, ◌∙◌, Bool, true, false, List, [], ◌∷◌, if◌then◌else◌, Option, none, some,
  bytes_equal, ltb, Bool-cases, inl, inr,
}
use layer.Ledger.Transaction.{Transaction}
use layer.TxPool.{
  TxPool, TxEntry, CheckBlkResult, get_entry, delete_entry, contains_entry, add_tx_list,
  clean_transaction_list, del_tx_list, compare_tx_height, check_entry, check_entries,
  get_unverified_txs, remove_below, remove_txs_below_gas_price,
}
use layer.TxPool.Check.{get_entry-delete_entry}

-- Every entry stands under the hash of its transaction, and no other entry does.
abbrev pub Keyed : TxPool → Type 0
Keyed [] = Unit
Keyed (e ∷ pool) = (e.0 ≡ e.1.tx.hash) × (get_entry e.0 pool ≡ none) × Keyed pool

pub delete_entry-none :
    (k : List ℕ) (pool : TxPool) → get_entry k pool ≡ none → delete_entry k pool ≡ pool
unfolding get_entry delete_entry
delete_entry-none k [] h = refl
delete_entry-none k (e ∷ pool) h = elim (Bool-cases (bytes_equal e.0 k)) [
  | inl same ↦ let gone : some e.1 ≡ none = rw same at h in cc
  | inr apart ↦ rw apart (ap (◌∷◌ e) (delete_entry-none k pool (rw apart at h)))
]

get_entry-delete_entry-none :
    (hash k : List ℕ) (pool : TxPool)
    → get_entry hash pool ≡ none
    → get_entry hash (delete_entry k pool) ≡ none
get_entry-delete_entry-none hash k pool h =
    get_entry-delete_entry hash k pool
    ∙ elim (Bool-cases (bytes_equal k hash)) [ inl same ↦ rw same refl | inr apart ↦ rw apart h ]

pub delete_entry-Keyed : (k : List ℕ) (pool : TxPool) → Keyed pool → Keyed (delete_entry k pool)
unfolding delete_entry
delete_entry-Keyed k [] h = tt
delete_entry-Keyed k (e ∷ pool) h = elim (Bool-cases (bytes_equal e.0 k)) [
  | inl same ↦ rw same (delete_entry-Keyed k pool h.2)
  | inr apart ↦
      rw apart (h.0, get_entry-delete_entry-none e.0 k pool h.1, delete_entry-Keyed k pool h.2)
]

-- Either the pool, or the pool without the entry of a hash.
chosen-Keyed :
    (b : Bool) (k : List ℕ) (pool : TxPool)
    → Keyed pool
    → Keyed (if b then delete_entry k pool else pool)
chosen-Keyed true k pool h = delete_entry-Keyed k pool h
chosen-Keyed false k pool h = h

contains_entry-false : (o : Option TxEntry) → contains_entry o ≡ false → o ≡ none
unfolding contains_entry
contains_entry-false none f = refl
contains_entry-false (some g) f = cc

pub add_tx_list-Keyed : (pool : TxPool) (e : TxEntry) → Keyed pool → Keyed (add_tx_list pool e).1
unfolding add_tx_list
add_tx_list-Keyed pool e h = elim (Bool-cases (contains_entry (get_entry e.tx.hash pool))) [
  | inl known ↦ rw known h
  | inr new ↦ rw new (refl, contains_entry-false (get_entry e.tx.hash pool) new, h)
]

pub clean_transaction_list-Keyed :
    (pool : TxPool) (txs : List Transaction) → Keyed pool → Keyed (clean_transaction_list pool txs)
unfolding clean_transaction_list
clean_transaction_list-Keyed pool [] h = h
clean_transaction_list-Keyed pool (tx ∷ txs) h =
    clean_transaction_list-Keyed
      (if contains_entry (get_entry tx.hash pool) then delete_entry tx.hash pool else pool) txs
      (chosen-Keyed (contains_entry (get_entry tx.hash pool)) tx.hash pool h)

pub del_tx_list-Keyed :
    (pool : TxPool) (tx : Transaction) → Keyed pool → Keyed (del_tx_list pool tx).1
unfolding del_tx_list
del_tx_list-Keyed pool tx h = elim (Bool-cases (contains_entry (get_entry tx.hash pool))) [
  | inl known ↦ rw known (delete_entry-Keyed tx.hash pool h)
  | inr new ↦ rw new h
]

check_entry-Keyed :
    (pool : TxPool) (tx : Transaction) (height : ℕ) (o : Option TxEntry) (res : CheckBlkResult)
    → Keyed pool
    → Keyed (check_entry pool tx height o res).1
unfolding check_entry
check_entry-Keyed pool tx height none res h = h
check_entry-Keyed pool tx height (some e) res h =
    elim (Bool-cases (compare_tx_height e.attrs height)) [
      | inl valid ↦ rw valid h
      | inr stale ↦ rw stale (delete_entry-Keyed tx.hash pool h)
    ]

check_entries-Keyed :
    (pool : TxPool) (txs : List Transaction) (height : ℕ) (res : CheckBlkResult)
    → Keyed pool
    → Keyed (check_entries pool txs height res).1
unfolding check_entries
check_entries-Keyed pool [] height res h = h
check_entries-Keyed pool (tx ∷ txs) height res h =
    let next = check_entry pool tx height (get_entry tx.hash pool) res in
    check_entries-Keyed next.1 txs height next.0
      (check_entry-Keyed pool tx height (get_entry tx.hash pool) res h)

pub get_unverified_txs-Keyed :
    (pool : TxPool) (txs : List Transaction) (height : ℕ)
    → Keyed pool
    → Keyed (get_unverified_txs pool txs height).1
unfolding get_unverified_txs
get_unverified_txs-Keyed pool txs height h =
    check_entries-Keyed pool txs height
      (record { verified_txs = []; unverified_txs = []; old_txs = [] }) h

remove_below-Keyed :
    (entries pool : TxPool) (gas_price : ℕ)
    → Keyed pool
    → Keyed (remove_below entries pool gas_price)
unfolding remove_below
remove_below-Keyed [] pool gas_price h = h
remove_below-Keyed (e ∷ entries) pool gas_price h =
    let below = ltb e.1.tx.unsigned.gas_price gas_price in
    remove_below-Keyed entries (if below then delete_entry e.1.tx.hash pool else pool) gas_price
      (chosen-Keyed below e.1.tx.hash pool h)

pub remove_txs_below_gas_price-Keyed :
    (pool : TxPool) (gas_price : ℕ) → Keyed pool → Keyed (remove_txs_below_gas_price pool gas_price)
unfolding remove_txs_below_gas_price
remove_txs_below_gas_price-Keyed pool gas_price h = remove_below-Keyed pool pool gas_price h
