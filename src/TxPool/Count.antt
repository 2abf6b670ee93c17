-- ===== src/TxPool/Count.antt =====
-- How many results `GetUnverifiedTxs` of node/txnpool/common/transaction_pool.go gives.
use layer.Base.{
  ℕ, suc, ◌+◌, ◌≡◌, refl, sym, ◌∙◌, Bool, true, false, ◌||◌, List, [], ◌∷◌, length, length-append,
  Option, none, some, bytes_equal, Bool-cases, inl, inr, arith,
}
use layer.Ledger.Transaction.{Transaction}
use layer.TxPool.{
  TxPool, TxEntry, TxAttr, CheckBlkResult, is_stateful, get_entry, compare_tx_height,
  stateful_results, check_entry, check_entries, get_unverified_txs,
}
use layer.TxPool.Check.{get_entry-check_entry, still_valid-some}

-- Is one of the results from the stateful validator?
unfoldable pub has_stateful : List TxAttr → Bool
has_stateful [] = false
has_stateful (v ∷ attrs) = is_stateful v.type || has_stateful attrs

abbrev AllStateful : TxPool → Type 0
AllStateful pool =
    (hash : List ℕ) (e : TxEntry) → get_entry hash pool ≡ some e → has_stateful e.attrs ≡ true

unfoldable pub result_count : CheckBlkResult → ℕ
result_count res = length res.verified_txs + length res.unverified_txs + length res.old_txs

length-stateful_results :
    (tx : Transaction) (attrs : List TxAttr)
    → has_stateful attrs ≡ true
    → length (stateful_results tx attrs) ≡ 1
unfolding stateful_results has_stateful
length-stateful_results tx [] h = cc
length-stateful_results tx (v ∷ attrs) h = elim (Bool-cases (is_stateful v.type)) [
  | inl first ↦ rw first refl
  | inr other ↦ rw other (length-stateful_results tx attrs (rw other at h))
]

result_count-check_entry :
    (pool : TxPool) (tx : Transaction) (height : ℕ) (res : CheckBlkResult) (o : Option TxEntry)
    → ((e : TxEntry) → o ≡ some e → has_stateful e.attrs ≡ true)
    → result_count (check_entry pool tx height o res).0 ≡ suc (result_count res)
unfolding check_entry result_count
result_count-check_entry pool tx height res none h =
    omega (arith, length-append res.unverified_txs (tx ∷ []))
result_count-check_entry pool tx height res (some e) h =
    elim (Bool-cases (compare_tx_height e.attrs height)) [
      | inl valid ↦ rw valid (
          omega (
            arith,
            length-append res.verified_txs (stateful_results tx e.attrs),
            length-stateful_results tx e.attrs (h e refl),
          ))
      | inr stale ↦ rw stale (omega (arith, length-append res.old_txs (e.tx ∷ [])))
    ]

check_entry-AllStateful :
    (pool : TxPool) (tx : Transaction) (height : ℕ) (res : CheckBlkResult)
    → AllStateful pool
    → AllStateful (check_entry pool tx height (get_entry tx.hash pool) res).1
check_entry-AllStateful pool tx height res h hash e found = h hash e (
    still_valid-some (bytes_equal tx.hash hash) height (get_entry hash pool) e
      (sym (get_entry-check_entry hash pool tx height res) ∙ found))

result_count-check_entries :
    (pool : TxPool) (txs : List Transaction) (height : ℕ) (res : CheckBlkResult)
    → AllStateful pool
    → result_count (check_entries pool txs height res).0 ≡ result_count res + length txs
unfolding check_entries
result_count-check_entries pool [] height res h = omega arith
result_count-check_entries pool (tx ∷ txs) height res h =
    let next = check_entry pool tx height (get_entry tx.hash pool) res in
    omega (
      arith,
      result_count-check_entries next.1 txs height next.0
          (check_entry-AllStateful pool tx height res h),
      result_count-check_entry pool tx height res (get_entry tx.hash pool) (h tx.hash),
    )

-- If every entry of the pool has a stateful result, `GetUnverifiedTxs` gives as many verified,
-- unverified and old transactions together as it was asked about.
pub result_count-get_unverified_txs :
    (pool : TxPool) (txs : List Transaction) (height : ℕ)
    → ((hash : List ℕ) (e : TxEntry) → get_entry hash pool ≡ some e → has_stateful e.attrs ≡ true)
    → result_count (get_unverified_txs pool txs height).0 ≡ length txs
unfolding get_unverified_txs result_count
result_count-get_unverified_txs pool txs height h =
    let total =
      result_count-check_entries pool txs height
        (record { verified_txs = []; unverified_txs = []; old_txs = [] }) h in
    let zero_left : 0 + length txs ≡ length txs = omega arith in total ∙ zero_left
