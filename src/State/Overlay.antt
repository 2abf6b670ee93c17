-- ===== src/State/Overlay.antt =====
-- node/core/store/overlaydb/overlaydb.go: the write set of a block over the store.
pub mod Commit
pub mod Digest
use layer.Base.{
  ℕ, Bool, true, false, List, [], ◌∷◌, ◌++◌, length, ◌==◌, if◌then◌else◌, Option, none, some,
}
use layer.Native.Store.{Read, found, missing, failed}
use layer.State.Keys.{Entry}
use layer.State.Backing.{MemDb, PersistStore, Answer, present, not_found, store_failed}

pub record OverlayDb (P M : Type 0) : Type 0 where
  pub store : P
  pub memdb : M
  pub db_err : Bool

-- A value of the memory table: a deleted key has the nil slice.
unfoldable pub written : List ℕ → Read
written [] = missing
written (b ∷ bs) = found (b ∷ bs)

unfoldable pub answered : Answer → Read
answered (present v) = found v
answered not_found = missing
answered store_failed = failed

module _ {P M : Type 0} (ps : PersistStore P) (mdb : MemDb M) where
  unfoldable pub new_overlay_db : P → OverlayDb P M
  new_overlay_db store = record { store = store; memdb = mdb.new; db_err = false }

  unfoldable pub reset : OverlayDb P M → OverlayDb P M
  reset o = record o { memdb = mdb.new }

  unfoldable pub set_error : OverlayDb P M → OverlayDb P M
  set_error o = record o { db_err = true }

  -- An error of the store, other than ErrNotFound, is kept in the overlay.
  unfoldable pub note_error : OverlayDb P M → Answer → OverlayDb P M
  note_error o store_failed = set_error o
  note_error o (present v) = o
  note_error o not_found = o

  unfoldable pub get_below : OverlayDb P M → List ℕ → Option (List ℕ) → Read × OverlayDb P M
  get_below o key (some value) = (written value, o)
  get_below o key none = let answer = ps.get o.store key in (answered answer, note_error o answer)

  -- `Get`
  unfoldable pub get : OverlayDb P M → List ℕ → Read × OverlayDb P M
  get o key = get_below o key (mdb.get o.memdb key)

  unfoldable pub put : OverlayDb P M → List ℕ → List ℕ → OverlayDb P M
  put o key value = record o { memdb = mdb.put o.memdb key value }

  unfoldable pub delete : OverlayDb P M → List ℕ → OverlayDb P M
  delete o key = record o { memdb = mdb.delete o.memdb key }

  -- One call of the function that `CommitTo` gives to ForEach.
  unfoldable pub commit_entry : P → Entry → P
  commit_entry s e = if length e.1 == 0 then ps.batch_delete s e.0 else ps.batch_put s e.0 e.1

  unfoldable pub commit_entries : P → List Entry → P
  commit_entries s [] = s
  commit_entries s (e ∷ es) = commit_entries (commit_entry s e) es

  unfoldable pub commit_to : OverlayDb P M → OverlayDb P M
  commit_to o = record o { store = commit_entries o.store (mdb.entries o.memdb) }

  -- What `ChangeHash` writes to the hash: every key and value of the write set.
  unfoldable pub entries_bytes : List Entry → List ℕ
  entries_bytes [] = []
  entries_bytes (e ∷ es) = e.0 ++ (e.1 ++ entries_bytes es)

  unfoldable pub change_hash : (List ℕ → List ℕ) → OverlayDb P M → List ℕ
  change_hash sha256 o = sha256 (entries_bytes (mdb.entries o.memdb))
