-- ===== src/State/Backing.antt =====
-- What the caches stand on: the sorted memory table of node/core/store/overlaydb/memdb.go, which is
-- goleveldb's with a deletion that keeps its key, and the store of node/core/store/common/store.go,
-- which is leveldb.
use layer.Base.{ℕ, ◌≡◌, List, [], Option, none, some, bytes_equal, if◌then◌else◌}
use layer.State.Keys.{Entry, lookup, IsSorted}

-- `get` answers none for an unknown key, and no bytes for a deleted one. `entries` is what ForEach
-- visits, deletions included: the keys in their order, each with the value that `get` gives.
pub record MemDb (M : Type 0) : Type 0 where
  pub new : M
  pub get : M → List ℕ → Option (List ℕ)
  pub put : M → List ℕ → List ℕ → M
  pub delete : M → List ℕ → M
  pub entries : M → List Entry
  pub get-new : (k : List ℕ) → get new k ≡ none
  pub get-put :
      (m : M) (k v j : List ℕ) → get (put m k v) j ≡ (if bytes_equal k j then some v else get m j)
  pub get-delete :
      (m : M) (k j : List ℕ) → get (delete m k) j ≡ (if bytes_equal k j then some [] else get m j)
  pub get-entries : (m : M) (k : List ℕ) → get m k ≡ lookup k (entries m)
  pub entries-IsSorted : (m : M) → IsSorted (entries m)

-- What a read of the store answers: a value, ErrNotFound, or another error.
pub data Answer : Type 0 where
  present : List ℕ → Answer
  not_found : Answer
  store_failed : Answer

-- `batched` is what a read answers once the batch is committed.
pub record PersistStore (P : Type 0) : Type 0 where
  pub get : P → List ℕ → Answer
  pub batch_put : P → List ℕ → List ℕ → P
  pub batch_delete : P → List ℕ → P
  pub batched : P → List ℕ → Answer
  pub batched-put :
      (s : P) (k v j : List ℕ)
      → batched (batch_put s k v) j ≡ (if bytes_equal k j then present v else batched s j)
  pub batched-delete :
      (s : P) (k j : List ℕ)
      → batched (batch_delete s k) j ≡ (if bytes_equal k j then not_found else batched s j)
