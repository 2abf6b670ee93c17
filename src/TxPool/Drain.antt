-- ===== src/TxPool/Drain.antt =====
-- Rounds over the pool of node/txnpool/common/transaction_pool.go: the consensus gets transactions
-- for a block, and the block that is saved cleans them from the pool.
use mathlib.Core.Path.{subst}
use mathlib.Core.Bool.{Bool-set}
use mathlib.Core.Logic.Or
use mathlib.Core.List.{Mem, Perm, not-mem-nil, mem-cons, mem-cons_self}
use mathlib.Core.List.Perm
use layer.Base.{
  ℕ, zero, suc, ◌≤◌, ◌<◌, ◌≡◌, refl, sym, ap, ◌∙◌, Bool, true, false, ◌&&◌, List, [], ◌∷◌, map,
  length, leb, if◌then◌else◌, bytes_equal, bytes_equal_refl, Bool-cases, inl, inr, arith,
}
use layer.Ledger.Transaction.{Transaction}
use layer.TxPool.{
  TxPool, TxEntry, get_entry, delete_entry, contains_entry, clean_transaction_list, choose_entries,
  entry_count, get_tx_pool,
}
use layer.TxPool.Choice.{entries_of}
use layer.TxPool.Recent.{is_recent, compare_tx_height-is_recent}
use layer.TxPool.Keyed.{Keyed, clean_transaction_list-Keyed}
use layer.TxPool.Reach.{Reached, Reached-Keyed}

-- No entry has a stateful result from below the height.
abbrev pub AllValid : ℕ → TxPool → Type 0
AllValid height [] = Unit
AllValid height (e ∷ pool) = (is_recent height e.1.attrs ≡ true) × AllValid height pool

unfoldable pub round : (List TxEntry → List TxEntry) → ℕ → ℕ → TxPool → TxPool
round sort max height pool =
    clean_transaction_list pool
      (map (λ (e : TxEntry). e.tx) (get_tx_pool sort max pool true height).0)

unfoldable pub rounds : (List TxEntry → List TxEntry) → ℕ → ℕ → ℕ → TxPool → TxPool
rounds sort max height zero pool = pool
rounds sort max height (suc n) pool = rounds sort max height n (round sort max height pool)

delete_entry-AllValid :
    (k : List ℕ) (height : ℕ) (pool : TxPool)
    → AllValid height pool
    → AllValid height (delete_entry k pool)
unfolding delete_entry
delete_entry-AllValid k height [] h = tt
delete_entry-AllValid k height (e ∷ pool) h = elim (Bool-cases (bytes_equal e.0 k)) [
  | inl same ↦ rw same (delete_entry-AllValid k height pool h.1)
  | inr apart ↦ rw apart (h.0, delete_entry-AllValid k height pool h.1)
]

chosen-AllValid :
    (b : Bool) (k : List ℕ) (height : ℕ) (pool : TxPool)
    → AllValid height pool
    → AllValid height (if b then delete_entry k pool else pool)
chosen-AllValid true k height pool h = delete_entry-AllValid k height pool h
chosen-AllValid false k height pool h = h

clean-AllValid :
    (pool : TxPool) (height : ℕ) (txs : List Transaction)
    → AllValid height pool
    → AllValid height (clean_transaction_list pool txs)
unfolding clean_transaction_list
clean-AllValid pool height [] h = h
clean-AllValid pool height (tx ∷ txs) h =
    let known = contains_entry (get_entry tx.hash pool) in
    clean-AllValid (if known then delete_entry tx.hash pool else pool) height txs
      (chosen-AllValid known tx.hash height pool h)

length-delete_entry : (k : List ℕ) (pool : TxPool) → length (delete_entry k pool) ≤ length pool
unfolding delete_entry
length-delete_entry k [] = omega arith
length-delete_entry k (e ∷ pool) =
    let ih = length-delete_entry k pool in
    elim (Bool-cases (bytes_equal e.0 k)) [
      | inl same ↦ rw same (omega arith)
      | inr apart ↦ rw apart (omega arith)
    ]

length-delete_entry_known :
    (k : List ℕ) (pool : TxPool)
    → contains_entry (get_entry k pool) ≡ true
    → length (delete_entry k pool) < length pool
unfolding delete_entry get_entry contains_entry
length-delete_entry_known k [] h = cc
length-delete_entry_known k (e ∷ pool) h = elim (Bool-cases (bytes_equal e.0 k)) [
  | inl same ↦ let shorter = length-delete_entry k pool in rw same (omega arith)
  | inr apart ↦ let ih = length-delete_entry_known k pool (rw apart at h) in rw apart (omega arith)
]

length-clean :
    (pool : TxPool) (txs : List Transaction)
    → length (clean_transaction_list pool txs) ≤ length pool
unfolding clean_transaction_list
length-clean pool [] = omega arith
length-clean pool (tx ∷ txs) = elim (Bool-cases (contains_entry (get_entry tx.hash pool))) [
  | inl known ↦
      let ih = length-clean (delete_entry tx.hash pool) txs in
      let shorter = length-delete_entry tx.hash pool in rw known (omega arith)
  | inr new ↦ rw new (length-clean pool txs)
]

length-clean_known :
    (pool : TxPool) (tx : Transaction) (txs : List Transaction)
    → contains_entry (get_entry tx.hash pool) ≡ true
    → length (clean_transaction_list pool (tx ∷ txs)) < length pool
unfolding clean_transaction_list
length-clean_known pool tx txs known =
    let ih = length-clean (delete_entry tx.hash pool) txs in
    let shorter = length-delete_entry_known tx.hash pool known in rw known (omega arith)

-- The entry is one that a round takes out.
unfoldable is_due : ℕ → TxPool → TxEntry → Bool
is_due height pool e = is_recent height e.attrs && contains_entry (get_entry e.tx.hash pool)

is_due-cons :
    (height : ℕ) (pool : TxPool) (e : List ℕ × TxEntry) (f : TxEntry)
    → is_due height pool f ≡ true
    → is_due height (e ∷ pool) f ≡ true
unfolding is_due get_entry contains_entry
is_due-cons height pool e f h = elim (Bool-cases (bytes_equal e.0 f.tx.hash)) [
  | inl same ↦ rw same (elim (Bool-cases (is_recent height f.attrs)) [
    | inl valid ↦ rw valid refl
    | inr stale ↦ let no : false ≡ true = rw stale at h in cc
  ])
  | inr apart ↦ rw apart h
]

is_due-first :
    (height : ℕ) (pool : TxPool) (e : List ℕ × TxEntry)
    → Keyed (e ∷ pool)
    → AllValid height (e ∷ pool)
    → is_due height (e ∷ pool) e.1 ≡ true
unfolding is_due get_entry contains_entry
is_due-first height pool e h valid = rw (valid.0, sym h.0, bytes_equal_refl e.0) refl

mem-is_due :
    (height : ℕ) (pool : TxPool) (f : TxEntry)
    → Keyed pool
    → AllValid height pool
    → Mem f (entries_of pool)
    → is_due height pool f ≡ true
unfolding entries_of
mem-is_due height [] f h valid m = absurd (not-mem-nil m)
mem-is_due height (e ∷ pool) f h valid m =
    Or.elim (Bool-set (is_due height (e ∷ pool) f) true) (mem-cons.0 m)
      (λ same.
        subst (λ g. is_due height (e ∷ pool) g ≡ true) (sym same)
          (is_due-first height pool e h valid))
      (λ later. is_due-cons height pool e f (mem-is_due height pool f h.2 valid.1 later))

choose_entries-first :
    (e : TxEntry) (es : List TxEntry) (count height : ℕ)
    → is_recent height e.attrs ≡ true
    → (rest : List TxEntry) × ((choose_entries (e ∷ es) 0 count height).0 ≡ e ∷ rest)
unfolding choose_entries
choose_entries-first e es count height recent =
    let valid = compare_tx_height-is_recent e.attrs height ∙ recent in
    elim (Bool-cases (leb count 1)) [
      | inl last ↦ ([], rw (valid, last) refl)
      | inr more ↦ ((choose_entries es 1 count height).0, rw (valid, more) refl)
    ]

-- Of a list that is not empty, no rearrangement is empty, and its first element is of the list.
first_of :
    (e : TxEntry) (xs ys : List TxEntry)
    → Perm ys (e ∷ xs)
    → (f : TxEntry) × (fs : List TxEntry) × (ys ≡ f ∷ fs) × Mem f (e ∷ xs)
first_of e xs [] p = absurd (not-mem-nil ((Perm.mem_iff {a = e} p).1 mem-cons_self))
first_of e xs (f ∷ fs) p = (f, fs, refl, (Perm.mem_iff {a = f} p).0 mem-cons_self)

is_due-both :
    (height : ℕ) (pool : TxPool) (e : TxEntry)
    → is_due height pool e ≡ true
    → (is_recent height e.attrs ≡ true) × (contains_entry (get_entry e.tx.hash pool) ≡ true)
unfolding is_due
is_due-both height pool e h = ground arith

module _ (sort : List TxEntry → List TxEntry)
    (sorts : (entries : List TxEntry) → Perm (sort entries) entries) (max height : ℕ) where
  -- A round makes a pool that is not empty shorter.
  length-round :
      (e : List ℕ × TxEntry) (pool : TxPool)
      → Keyed (e ∷ pool)
      → AllValid height (e ∷ pool)
      → length (round sort max height (e ∷ pool)) < suc (length pool)
  unfolding round get_tx_pool entries_of
  length-round e pool h valid =
      let (f, fs, sorted, m) =
        first_of e.1 (entries_of pool) (sort (entries_of (e ∷ pool)))
          (sorts (entries_of (e ∷ pool))) in
      let due = is_due-both height (e ∷ pool) f (mem-is_due height (e ∷ pool) f h valid m) in
      let chosen =
        choose_entries-first f fs (entry_count (suc (length pool)) max true) height due.0 in
      let picked : (get_tx_pool sort max (e ∷ pool) true height).0 ≡ f ∷ chosen.0 =
        ap (λ l. (choose_entries l 0 (entry_count (suc (length pool)) max true) height).0) sorted
        ∙ chosen.1 in
      subst
        (λ l.
          length (clean_transaction_list (e ∷ pool) (map (λ (g : TxEntry). g.tx) l))
          < suc (length pool))
        (sym picked)
        (length-clean_known (e ∷ pool) f.tx (map (λ (g : TxEntry). g.tx) chosen.0) due.1)

  length-round_le :
      (n : ℕ) (pool : TxPool)
      → Keyed pool
      → AllValid height pool
      → length pool ≤ suc n
      → length (round sort max height pool) ≤ n
  unfolding round
  length-round_le n [] h valid few =
      let still =
        length-clean [] (map (λ (f : TxEntry). f.tx) (get_tx_pool sort max [] true height).0) in
      omega arith
  length-round_le n (e ∷ pool) h valid few =
      let shorter = length-round e pool h valid in omega arith

  rounds_enough :
      (n : ℕ) (pool : TxPool)
      → Keyed pool
      → AllValid height pool
      → length pool ≤ n
      → rounds sort max height n pool ≡ []
  unfolding rounds round
  rounds_enough zero [] h valid few = refl
  rounds_enough zero (e ∷ pool) h valid few =
      let no : suc (length pool) ≤ 0 = few in absurd (omega arith)
  rounds_enough (suc n) pool h valid few =
      let txs = map (λ (f : TxEntry). f.tx) (get_tx_pool sort max pool true height).0 in
      rounds_enough n (round sort max height pool) (clean_transaction_list-Keyed pool txs h)
        (clean-AllValid pool height txs valid) (length-round_le n pool h valid few)

  -- For a sort that permutes its entries, any limit and a pool that the calls make of the empty
  -- one, without stateful results from below the height: as many rounds as it has entries, in
  -- each of which `GetTxPool` by count chooses transactions and `CleanTransactionList` takes them
  -- out, leave it empty.
  pub rounds-nil :
      (pool : TxPool)
      → Reached pool
      → AllValid height pool
      → rounds sort max height (length pool) pool ≡ []
  rounds-nil pool r valid = rounds_enough (length pool) pool (Reached-Keyed r) valid (omega arith)
