-- ===== src/State/Cache/Commit.antt =====
-- Reads through the cache of a transaction, and of the block's write set behind its commit.
use layer.Base.{
  ℕ, ◌≡◌, refl, ◌∙◌, false, List, [], ◌∷◌, length, ◌==◌, if◌then◌else◌, Option, none, some,
  bytes_equal, Bool-cases, inl, inr, arith,
}
use layer.Native.Store.{Read}
use layer.State.Keys.{Entry, lookup, IsSorted, lookup-first}
use layer.State.Backing.{MemDb, PersistStore}
use layer.State.Overlay
use layer.State.Overlay.{OverlayDb, answered}
use layer.State.Overlay.Commit.{over, get-over}
use layer.State.Cache.{
  CacheDb, make_prefixed_key, commit_entry, commit_entries, commit, get_below, get_at,
}

-- The later of two write sets over the earlier.
abbrev or_else : Option (List ℕ) → Option (List ℕ) → Option (List ℕ)
or_else (some v) r = some v
or_else none r = r

over-or_else :
    (a b : Option (List ℕ)) (below : Read) → over (or_else a b) below ≡ over a (over b below)
over-or_else (some v) b below = refl
over-or_else none b below = refl

module _ {P M : Type 0} (ps : PersistStore P) (mdb : MemDb M) where
  pub get_at-over :
      (c : CacheDb P M) (prefix : ℕ) (key : List ℕ)
      → (get_at ps mdb c prefix key).0
        ≡ over
            (mdb.get c.memdb (make_prefixed_key prefix key))
            (Overlay.get ps mdb c.backend (make_prefixed_key prefix key)).0
  unfolding get_at get_below
  get_at-over c prefix key = below (mdb.get c.memdb (make_prefixed_key prefix key))
    where
      below :
          (r : Option (List ℕ))
          → (get_below ps mdb c (make_prefixed_key prefix key) r).0
            ≡ over r (Overlay.get ps mdb c.backend (make_prefixed_key prefix key)).0
      below none = refl
      below (some v) = refl

  commit_entry-memdb :
      (o : OverlayDb P M) (e : Entry) (k : List ℕ)
      → mdb.get (commit_entry ps mdb o e).memdb k
        ≡ (if bytes_equal e.0 k then some e.1 else mdb.get o.memdb k)
  unfolding commit_entry Overlay.delete Overlay.put
  commit_entry-memdb o (key, []) k = mdb.get-delete o.memdb key k
  commit_entry-memdb o (key, b ∷ bs) k =
      let used : (length (b ∷ bs) == 0) ≡ false = ground arith in
      rw used (mdb.get-put o.memdb key (b ∷ bs) k)

  commit_entry-store : (o : OverlayDb P M) (e : Entry) → (commit_entry ps mdb o e).store ≡ o.store
  unfolding commit_entry Overlay.delete Overlay.put
  commit_entry-store o (key, []) = refl
  commit_entry-store o (key, b ∷ bs) =
      let used : (length (b ∷ bs) == 0) ≡ false = ground arith in rw used

  commit_entries-store :
      (o : OverlayDb P M) (es : List Entry) → (commit_entries ps mdb o es).store ≡ o.store
  unfolding commit_entries
  commit_entries-store o [] = refl
  commit_entries-store o (e ∷ es) =
      commit_entries-store (commit_entry ps mdb o e) es ∙ commit_entry-store o e

  commit_entries-memdb :
      (o : OverlayDb P M) (es : List Entry) (k : List ℕ)
      → IsSorted es
      → mdb.get (commit_entries ps mdb o es).memdb k ≡ or_else (lookup k es) (mdb.get o.memdb k)
  unfolding commit_entries
  commit_entries-memdb o [] k sorted = refl
  commit_entries-memdb o (e ∷ es) k (above, sorted) =
      commit_entries-memdb (commit_entry ps mdb o e) es k sorted
      ∙ rw (commit_entry-memdb o e k) (elim (Bool-cases (bytes_equal e.0 k)) [
        | inl h ↦ rw (h, lookup-first e es k above h)
        | inr h ↦ rw h
      ])

  -- After `Commit` the overlay below answers for every prefix and key what the cache of the
  -- transaction answered before.
  pub commit-read :
      (c : CacheDb P M) (prefix : ℕ) (key : List ℕ)
      → (Overlay.get ps mdb (commit ps mdb c).backend (make_prefixed_key prefix key)).0
        ≡ (get_at ps mdb c prefix key).0
  unfolding commit
  commit-read c prefix key =
      let k = make_prefixed_key prefix key in
      let es = mdb.entries c.memdb in
      get-over ps mdb (commit_entries ps mdb c.backend es) k
      ∙ rw (
        commit_entries-memdb c.backend es k (mdb.entries-IsSorted c.memdb),
        commit_entries-store c.backend es,
        over-or_else (lookup k es) (mdb.get c.backend.memdb k)
            (answered (ps.get c.backend.store k)),
        get_at-over c prefix key,
        get-over ps mdb c.backend k,
        mdb.get-entries c.memdb k,
      )
