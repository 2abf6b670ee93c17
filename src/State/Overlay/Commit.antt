-- ===== src/State/Overlay/Commit.antt =====
-- What the store holds once the write set of a block is committed to it.
use layer.Base.{
  ℕ, ◌≡◌, refl, ◌∙◌, false, List, [], ◌∷◌, length, ◌==◌, if◌then◌else◌, Option, none, some,
  bytes_equal, Bool-cases, inl, inr, arith,
}
use layer.Native.Store.{Read}
use layer.State.Keys.{Entry, lookup, IsSorted, lookup-first}
use layer.State.Backing.{MemDb, PersistStore}
use layer.State.Overlay.{
  OverlayDb, written, answered, get_below, get, commit_entry, commit_entries, commit_to,
}

-- A write set over what is below it.
abbrev pub over : Option (List ℕ) → Read → Read
over (some value) below = written value
over none below = below

module _ {P M : Type 0} (ps : PersistStore P) (mdb : MemDb M) where
  pub get-over :
      (o : OverlayDb P M) (key : List ℕ)
      → (get ps mdb o key).0 ≡ over (mdb.get o.memdb key) (answered (ps.get o.store key))
  unfolding get get_below
  get-over o key = below (mdb.get o.memdb key)
    where
      below :
          (r : Option (List ℕ))
          → (get_below ps mdb o key r).0 ≡ over r (answered (ps.get o.store key))
      below none = refl
      below (some v) = refl

  commit_entry-read :
      (s : P) (e : Entry) (k : List ℕ)
      → answered (ps.batched (commit_entry ps mdb s e) k)
        ≡ (if bytes_equal e.0 k then written e.1 else answered (ps.batched s k))
  unfolding commit_entry answered written
  commit_entry-read s (key, []) k =
      rw (ps.batched-delete s key k)
        (elim (Bool-cases (bytes_equal key k)) [ inl h ↦ rw h | inr h ↦ rw h ])
  commit_entry-read s (key, b ∷ bs) k =
      let used : (length (b ∷ bs) == 0) ≡ false = ground arith in
      rw (used, ps.batched-put s key (b ∷ bs) k)
        (elim (Bool-cases (bytes_equal key k)) [ inl h ↦ rw h | inr h ↦ rw h ])

  commit_entries-read :
      (s : P) (es : List Entry) (k : List ℕ)
      → IsSorted es
      → answered (ps.batched (commit_entries ps mdb s es) k)
        ≡ over (lookup k es) (answered (ps.batched s k))
  unfolding commit_entries
  commit_entries-read s [] k sorted = refl
  commit_entries-read s (e ∷ es) k (above, sorted) =
      commit_entries-read (commit_entry ps mdb s e) es k sorted
      ∙ rw (commit_entry-read s e k) (elim (Bool-cases (bytes_equal e.0 k)) [
        | inl h ↦ rw (h, lookup-first e es k above h)
        | inr h ↦ rw h
      ])

  -- Where a batch of the store starts out with the store's answer for a key, `CommitTo` leaves a
  -- batch that answers for the key what `Get` of the overlay answered: a written value, the
  -- absence of a deleted key, or the store's answer.
  pub commit_to-read :
      (o : OverlayDb P M) (k : List ℕ)
      → ps.batched o.store k ≡ ps.get o.store k
      → answered (ps.batched (commit_to ps mdb o).store k) ≡ (get ps mdb o k).0
  unfolding commit_to
  commit_to-read o k clean =
      commit_entries-read o.store (mdb.entries o.memdb) k (mdb.entries-IsSorted o.memdb)
      ∙ rw (clean, ← mdb.get-entries o.memdb k, get-over o k)
