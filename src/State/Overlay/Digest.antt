-- ===== src/State/Overlay/Digest.antt =====
-- The hash of a block's write set.
use layer.Base.{ℕ, ◌≡◌, ap, ◌∙◌, sym, List}
use layer.State.Keys.{IsSorted-unique}
use layer.State.Backing.{MemDb, PersistStore}
use layer.State.Overlay.{OverlayDb, entries_bytes, change_hash}

module _ {P M : Type 0} (ps : PersistStore P) (mdb : MemDb M) where
  -- Two overlays whose memory tables answer every key alike have the same `ChangeHash`.
  pub change_hash-same :
      (sha256 : List ℕ → List ℕ) (o o' : OverlayDb P M)
      → ((k : List ℕ) → mdb.get o.memdb k ≡ mdb.get o'.memdb k)
      → change_hash ps mdb sha256 o ≡ change_hash ps mdb sha256 o'
  unfolding change_hash
  change_hash-same sha256 o o' same =
      ap (λ es. sha256 (entries_bytes ps mdb es))
        (IsSorted-unique (mdb.entries o.memdb) (mdb.entries o'.memdb) (mdb.entries-IsSorted o.memdb)
          (mdb.entries-IsSorted o'.memdb)
          (λ k. sym (mdb.get-entries o.memdb k) ∙ same k ∙ mdb.get-entries o'.memdb k))
