-- ===== src/TxPool/Check.antt =====
-- What `GetUnverifiedTxs` of node/txnpool/common/transaction_pool.go leaves in the pool.
use layer.Base.{
  ℕ, ◌≡◌, refl, sym, ap, ◌∙◌, Bool, true, false, not, ◌&&◌, ◌||◌, List, [], ◌∷◌, if◌then◌else◌,
  Option, none, some, bytes_equal, bytes_equal→eq, bytes_equal_comm, Bool-cases, inl, inr,
}
use layer.Ledger.Transaction.{Transaction}
use layer.TxPool.{
  TxPool, TxEntry, CheckBlkResult, get_entry, delete_entry, check_entry, check_entries,
  get_unverified_txs,
}
use layer.TxPool.Recent.{is_recent, compare_tx_height-is_recent}

-- Is the hash that of a transaction of the list?
unfoldable pub has_hash : List ℕ → List Transaction → Bool
has_hash hash [] = false
has_hash hash (tx ∷ txs) = bytes_equal tx.hash hash || has_hash hash txs

-- An entry that is asked about stays unless it was verified below the height.
unfoldable pub still_valid : Bool → ℕ → Option TxEntry → Option TxEntry
still_valid asked height none = none
still_valid asked height (some e) = if asked && not (is_recent height e.attrs) then none else some e

pub get_entry-delete_entry :
    (hash k : List ℕ) (pool : TxPool)
    → get_entry hash (delete_entry k pool)
      ≡ (if bytes_equal k hash then none else get_entry hash pool)
unfolding get_entry delete_entry
get_entry-delete_entry hash k [] = elim (Bool-cases (bytes_equal k hash)) [
  | inl h ↦ rw h
  | inr h ↦ rw h
]
get_entry-delete_entry hash k (e ∷ pool) =
    let ih = get_entry-delete_entry hash k pool in
    elim (Bool-cases (bytes_equal e.0 k)) [
      | inl h ↦
          let same = bytes_equal→eq e.0 k h in
          elim (Bool-cases (bytes_equal k hash)) [
            | inl g ↦ rw (h, g) (rw g at ih)
            | inr g ↦ rw (h, g, same, g) (rw g at ih)
          ]
      | inr h ↦ elim (Bool-cases (bytes_equal e.0 hash)) [
        | inl f ↦
            let same = bytes_equal→eq e.0 hash f in
            let apart : bytes_equal k hash ≡ false =
              bytes_equal_comm k hash ∙ ap (λ x. bytes_equal x k) (sym same) ∙ h in
            rw (h, f, apart)
        | inr f ↦ rw (h, f) ih
      ]
    ]

-- What is left was there.
pub still_valid-some :
    (asked : Bool) (height : ℕ) (o : Option TxEntry) (e : TxEntry)
    → still_valid asked height o ≡ some e
    → o ≡ some e
unfolding still_valid
still_valid-some asked height none e h = h
still_valid-some asked height (some f) e h =
    elim (Bool-cases (asked && not (is_recent height f.attrs))) [
      | inl stale ↦ let gone : none ≡ some e = rw stale at h in cc
      | inr valid ↦ let kept : some f ≡ some e = rw valid at h in kept
    ]

still_valid_both :
    (a b : Bool) (height : ℕ) (o : Option TxEntry)
    → still_valid b height (still_valid a height o) ≡ still_valid (a || b) height o
unfolding still_valid
still_valid_both a b height none = refl
still_valid_both true true height (some e) = elim (Bool-cases (is_recent height e.attrs)) [
  | inl h ↦ rw (h, h)
  | inr h ↦ rw h
]
still_valid_both true false height (some e) = elim (Bool-cases (is_recent height e.attrs)) [
  | inl h ↦ rw h
  | inr h ↦ rw h
]
still_valid_both false b height (some e) = refl

still_valid_same :
    (asked : Bool) (height : ℕ) (e : TxEntry)
    → is_recent height e.attrs ≡ true
    → still_valid asked height (some e) ≡ some e
unfolding still_valid
still_valid_same true height e h = rw h
still_valid_same false height e h = refl

still_valid-none : (asked : Bool) (height : ℕ) → still_valid asked height none ≡ none
unfolding still_valid
still_valid-none asked height = refl

still_valid-false : (height : ℕ) (o : Option TxEntry) → still_valid false height o ≡ o
unfolding still_valid
still_valid-false height none = refl
still_valid-false height (some e) = refl

still_valid_stale :
    (height : ℕ) (e : TxEntry)
    → is_recent height e.attrs ≡ false
    → still_valid true height (some e) ≡ none
unfolding still_valid
still_valid_stale height e h = rw h

-- The lookup of any hash, where it is known at the hash `k`, whose entry is asked about.
still_valid_elsewhere :
    (hash k : List ℕ) (pool : TxPool) (height : ℕ) (o : Option TxEntry)
    → get_entry k pool ≡ o
    → still_valid true height o ≡ o
    → get_entry hash pool ≡ still_valid (bytes_equal k hash) height (get_entry hash pool)
still_valid_elsewhere hash k pool height o h kept = elim (Bool-cases (bytes_equal k hash)) [
  | inl same ↦
      let at_hash : get_entry hash pool ≡ o =
        ap (λ k. get_entry k pool) (sym (bytes_equal→eq k hash same)) ∙ h in
      rw (same, at_hash) (sym kept)
  | inr apart ↦ rw apart (sym (still_valid-false height (get_entry hash pool)))
]

-- The entry of the transaction is `o`.
get_entry-check_entry_at :
    (hash : List ℕ) (pool : TxPool) (tx : Transaction) (height : ℕ) (res : CheckBlkResult)
    → (o : Option TxEntry) → get_entry tx.hash pool ≡ o
    → get_entry hash (check_entry pool tx height o res).1
      ≡ still_valid (bytes_equal tx.hash hash) height (get_entry hash pool)
unfolding check_entry
get_entry-check_entry_at hash pool tx height res none h =
    still_valid_elsewhere hash tx.hash pool height none h (still_valid-none true height)
get_entry-check_entry_at hash pool tx height res (some e) h =
    elim (Bool-cases (is_recent height e.attrs)) [
      | inl valid ↦
          rw (compare_tx_height-is_recent e.attrs height, valid)
            (still_valid_elsewhere hash tx.hash pool height (some e) h
              (still_valid_same true height e valid))
      | inr stale ↦
          rw (compare_tx_height-is_recent e.attrs height, stale)
            (get_entry-delete_entry hash tx.hash pool
              ∙ removed (bytes_equal tx.hash hash) refl stale)
    ]
  where
    removed :
        (asked : Bool)
        → bytes_equal tx.hash hash ≡ asked
        → is_recent height e.attrs ≡ false
        → (if asked then none else get_entry hash pool)
          ≡ still_valid asked height (get_entry hash pool)
    removed true same stale =
        let at_hash : get_entry hash pool ≡ some e =
          ap (λ k. get_entry k pool) (sym (bytes_equal→eq tx.hash hash same)) ∙ h in
        rw at_hash (sym (still_valid_stale height e stale))
    removed false apart stale = sym (still_valid-false height (get_entry hash pool))

pub get_entry-check_entry :
    (hash : List ℕ) (pool : TxPool) (tx : Transaction) (height : ℕ) (res : CheckBlkResult)
    → get_entry hash (check_entry pool tx height (get_entry tx.hash pool) res).1
      ≡ still_valid (bytes_equal tx.hash hash) height (get_entry hash pool)
get_entry-check_entry hash pool tx height res =
    get_entry-check_entry_at hash pool tx height res (get_entry tx.hash pool) refl

get_entry-check_entries :
    (hash : List ℕ) (pool : TxPool) (txs : List Transaction) (height : ℕ) (res : CheckBlkResult)
    → get_entry hash (check_entries pool txs height res).1
      ≡ still_valid (has_hash hash txs) height (get_entry hash pool)
unfolding check_entries has_hash
get_entry-check_entries hash pool [] height res =
    sym (still_valid-false height (get_entry hash pool))
get_entry-check_entries hash pool (tx ∷ txs) height res =
    let next = check_entry pool tx height (get_entry tx.hash pool) res in
    get_entry-check_entries hash next.1 txs height next.0
    ∙ ap (still_valid (has_hash hash txs) height) (get_entry-check_entry hash pool tx height res)
    ∙ still_valid_both (bytes_equal tx.hash hash) (has_hash hash txs) height (get_entry hash pool)

-- After `GetUnverifiedTxs` on any transactions, the pool has under every hash the entry that it
-- had, except that an entry is gone if a transaction of the list has its hash and its stateful
-- result is from below the height.
pub get_entry-get_unverified_txs :
    (hash : List ℕ) (pool : TxPool) (txs : List Transaction) (height : ℕ)
    → get_entry hash (get_unverified_txs pool txs height).1
      ≡ still_valid (has_hash hash txs) height (get_entry hash pool)
unfolding get_unverified_txs
get_entry-get_unverified_txs hash pool txs height =
    get_entry-check_entries hash pool txs height
      (record { verified_txs = []; unverified_txs = []; old_txs = [] })
