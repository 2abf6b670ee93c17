-- ===== src/State/Cache.antt =====
-- node/smartcontract/storage/cachedb.go: the write set of a transaction over that of its block. The
-- buffer `keyScratch` is overwritten whole before each use and copied by the memory table, so a key
-- is a value here.
pub mod Storage
pub mod Commit
use layer.Base.{
  ℕ, Bool, true, false, List, [], ◌∷◌, length, ◌==◌, if◌then◌else◌, Option, none, some,
}
use layer.Native.Store.{Read, found, missing, failed}
use layer.State.Keys.{Entry}
use layer.State.Backing.{MemDb, PersistStore}
use layer.State.Overlay
use layer.State.Overlay.{OverlayDb, written}

pub record CacheDb (P M : Type 0) : Type 0 where
  pub memdb : M
  pub backend : OverlayDb P M

abbrev pub st_contract : ℕ
st_contract = 0x04

abbrev pub st_storage : ℕ
st_storage = 0x05

unfoldable pub make_prefixed_key : ℕ → List ℕ → List ℕ
make_prefixed_key prefix key = prefix ∷ key

module _ {P M : Type 0} (ps : PersistStore P) (mdb : MemDb M) where
  unfoldable pub new_cache_db : OverlayDb P M → CacheDb P M
  new_cache_db store = record { memdb = mdb.new; backend = store }

  unfoldable pub reset : CacheDb P M → CacheDb P M
  reset c = record c { memdb = mdb.new }

  unfoldable pub commit_entry : OverlayDb P M → Entry → OverlayDb P M
  commit_entry o e =
      if length e.1 == 0 then Overlay.delete ps mdb o e.0 else Overlay.put ps mdb o e.0 e.1

  unfoldable pub commit_entries : OverlayDb P M → List Entry → OverlayDb P M
  commit_entries o [] = o
  commit_entries o (e ∷ es) = commit_entries (commit_entry o e) es

  -- `Commit`
  unfoldable pub commit : CacheDb P M → CacheDb P M
  commit c = record c { backend = commit_entries c.backend (mdb.entries c.memdb) }

  unfoldable pub put_at : CacheDb P M → ℕ → List ℕ → List ℕ → CacheDb P M
  put_at c prefix key value = record c {
    memdb = mdb.put c.memdb (make_prefixed_key prefix key) value;
  }

  unfoldable pub put : CacheDb P M → List ℕ → List ℕ → CacheDb P M
  put c key value = put_at c st_storage key value

  unfoldable pub get_below : CacheDb P M → List ℕ → Option (List ℕ) → Read × CacheDb P M
  get_below c pkey (some value) = (written value, c)
  get_below c pkey none =
      let (r, backend) = Overlay.get ps mdb c.backend pkey in (r, record c { backend = backend })

  unfoldable pub get_at : CacheDb P M → ℕ → List ℕ → Read × CacheDb P M
  get_at c prefix key =
      let pkey = make_prefixed_key prefix key in get_below c pkey (mdb.get c.memdb pkey)

  unfoldable pub get : CacheDb P M → List ℕ → Read × CacheDb P M
  get c key = get_at c st_storage key

  unfoldable pub delete_at : CacheDb P M → ℕ → List ℕ → CacheDb P M
  delete_at c prefix key = record c { memdb = mdb.delete c.memdb (make_prefixed_key prefix key) }

  unfoldable pub delete : CacheDb P M → List ℕ → CacheDb P M
  delete c key = delete_at c st_storage key

  unfoldable pub delete_contract : CacheDb P M → List ℕ → CacheDb P M
  delete_contract c address = delete_at c st_contract address
