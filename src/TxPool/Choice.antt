-- ===== src/TxPool/Choice.antt =====
-- Which entries `GetTxPool` of node/txnpool/common/transaction_pool.go gives to the consensus.
use layer.Base.{
  ℕ, suc, ◌-◌, ◌≤◌, ◌<◌, ◌≡◌, refl, sym, ap, ◌∙◌, Bool, true, false, List, [], ◌∷◌, map, length,
  take, take_all, leb, ltb, if◌then◌else◌, Bool-cases, inl, inr, arith,
}
use layer.TxPool.{TxPool, TxEntry, choose_entries, entry_count, get_tx_pool}
use layer.TxPool.Recent.{is_recent, compare_tx_height-is_recent}

-- The entries verified at the height or above.
unfoldable pub valid_entries : ℕ → List TxEntry → List TxEntry
valid_entries height [] = []
valid_entries height (e ∷ entries) =
    let rest = valid_entries height entries in if is_recent height e.attrs then e ∷ rest else rest

unfoldable pub entries_of : TxPool → List TxEntry
entries_of pool = map (λ (e : List ℕ × TxEntry). e.1) pool

length-entries_of : (pool : TxPool) → length (entries_of pool) ≡ length pool
unfolding entries_of
length-entries_of [] = refl
length-entries_of (e ∷ pool) = ap suc (length-entries_of pool)

length-valid_entries :
    (height : ℕ) (entries : List TxEntry) → length (valid_entries height entries) ≤ length entries
unfolding valid_entries
length-valid_entries height [] = omega arith
length-valid_entries height (e ∷ entries) =
    let ih = length-valid_entries height entries in ground arith

choose_entries-valid_entries :
    (entries : List TxEntry) (num count height : ℕ)
    → (choose_entries entries num count height).0
      ≡ take (suc (count - suc num)) (valid_entries height entries)
unfolding choose_entries valid_entries
choose_entries-valid_entries [] num count height = refl
choose_entries-valid_entries (e ∷ entries) num count height =
    let same = compare_tx_height-is_recent e.attrs height in
    elim (Bool-cases (is_recent height e.attrs)) [
      | inl valid ↦ elim (Bool-cases (leb count (suc num))) [
        | inl last ↦
            let none_left : count - suc num ≡ 0 = ground arith in
            rw (same, valid, last, none_left) refl
        | inr more ↦
            let next : count - suc num ≡ suc (count - suc (suc num)) = ground arith in
            rw (same, valid, more, next)
              (ap (◌∷◌ e) (choose_entries-valid_entries entries (suc num) count height))
      ]
      | inr stale ↦ rw (same, stale) (choose_entries-valid_entries entries num count height)
    ]

take-entry_count :
    (n max : ℕ) (xs : List TxEntry)
    → 0 < max
    → length xs ≤ n
    → (take (suc (entry_count n max true - 1)) xs ≡ take max xs)
      × (take (suc (entry_count n max false - 1)) xs ≡ xs)
unfolding entry_count
take-entry_count n max xs h fits = (
  elim (Bool-cases (ltb n max)) [
    | inl few ↦
        let all : length xs ≤ suc (entry_count n max true - 1) = ground arith in
        take_all (suc (entry_count n max true - 1)) xs all ∙ sym (take_all max xs (ground arith))
    | inr many ↦
        let reached : suc (entry_count n max true - 1) ≡ max = ground arith in
        ap (λ k. take k xs) reached
  ],
  take_all (suc (n - 1)) xs (omega arith),
)

-- For a sort that keeps the number of entries and a positive limit, `GetTxPool` gives, by count,
-- the first entries in the order of the sort that have no stateful result from below the height,
-- as many as the limit; otherwise it gives all of these.
pub get_tx_pool-valid_entries :
    (sort : List TxEntry → List TxEntry)
    → ((entries : List TxEntry) → length (sort entries) ≡ length entries)
    → (max : ℕ) (pool : TxPool) (height : ℕ) → 0 < max
    → ((get_tx_pool sort max pool true height).0
        ≡ take max (valid_entries height (sort (entries_of pool))))
      × ((get_tx_pool sort max pool false height).0 ≡ valid_entries height (sort (entries_of pool)))
unfolding get_tx_pool entries_of
get_tx_pool-valid_entries sort same max pool height h =
    let sorted : List TxEntry = sort (entries_of pool) in
    let xs : List TxEntry = valid_entries height sorted in
    let fits : length xs ≤ length pool =
      omega (
        arith,
        length-valid_entries height sorted,
        same (entries_of pool),
        length-entries_of pool,
      ) in
    let both = take-entry_count (length pool) max xs h fits in
    let chosen : (by_count : Bool) → _ = λ by_count.
      choose_entries-valid_entries sorted 0 (entry_count (length pool) max by_count) height in
    (chosen true ∙ both.0, chosen false ∙ both.1)
