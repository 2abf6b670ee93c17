-- ===== src/Native/Store.antt =====
-- node/smartcontract/service/native/utils/store.go: numbers and byte strings in the contract
-- storage, over the interface of the cache that the contracts write to.
pub mod Numbers
pub mod Offsets
use layer.Base.{
  ℕ, ◌+◌, ◌<◌, ◌≡◌, Bool, true, false, List, [], ◌∷◌, ◌++◌, length, take, if◌then◌else◌, ltb,
  bytes_equal, Option, none, some, Outcome, ok, err, ◌>>=◌, ◌>>◌, fail_if,
}
use layer.Common.Words.{le_bytes, le_value}
use layer.Common.Source.{new_source}
use layer.Native.Item
use layer.Native.Item.{StorageItem, item_bytes, deserialize_item}

-- What `CacheDB.Get` answers: a value, a nil slice, or an error of the database below.
pub data Read : Type 0 where
  found : List ℕ → Read
  missing : Read
  failed : Read

-- The cache of a transaction: a write is seen by every later read of its key and by no other.
pub record Db (S : Type 0) : Type 0 where
  pub get : S → List ℕ → Read
  pub put : S → List ℕ → List ℕ → S
  pub delete : S → List ℕ → S
  pub get-put :
      (s : S) (k v j : List ℕ)
      → 0 < length v
      → get (put s k v) j ≡ (if bytes_equal k j then found v else get s j)
  pub get-delete :
      (s : S) (k j : List ℕ) → get (delete s k) j ≡ (if bytes_equal k j then missing else get s j)

pub data Error : Type 0 where
  storage_error not_an_item short_value : Error

unfoldable pub as_item : Outcome Item.Error StorageItem → Outcome Error (Option StorageItem)
as_item (ok item) = ok (some item)
as_item (err e) = err not_an_item

unfoldable pub item_of : Read → Outcome Error (Option StorageItem)
item_of failed = err storage_error
item_of missing = ok none
item_of (found store) = as_item (deserialize_item (new_source store))

-- `serialization.ReadUint64` and `ReadUint32`, at n = 8 and 4.
unfoldable pub read_word : ℕ → List ℕ → Outcome Error ℕ
read_word n value = if ltb (length value) n then err short_value else ok (le_value (take n value))

unfoldable pub word_of : ℕ → Outcome Error (Option StorageItem) → Outcome Error ℕ
word_of n (err e) = err e
word_of n (ok none) = ok 0
word_of n (ok (some item)) = read_word n item.value

module _ {S : Type 0} (db : Db S) where
  unfoldable pub get_storage_item : S → List ℕ → Outcome Error (Option StorageItem)
  get_storage_item s key = item_of (db.get s key)

  unfoldable pub get_storage_uint64 : S → List ℕ → Outcome Error ℕ
  get_storage_uint64 s key = word_of 8 (get_storage_item s key)

  unfoldable pub get_storage_uint32 : S → List ℕ → Outcome Error ℕ
  get_storage_uint32 s key = word_of 4 (get_storage_item s key)

unfoldable pub gen_uint64_storage_item : ℕ → StorageItem
gen_uint64_storage_item value = record { state_version = 0; value = le_bytes 8 value }

unfoldable pub gen_uint32_storage_item : ℕ → StorageItem
gen_uint32_storage_item value = record { state_version = 0; value = le_bytes 4 value }
