-- ===== src/Native/Store/Numbers.antt =====
-- A number that was stored is the number that is read.
use layer.Base.{
  ℕ, ◌<◌, ◌≡◌, refl, ap, ◌∙◌, false, List, length, take_all, if◌then◌else◌, ltb, bytes_equal, arith,
  Bool-cases, inl, inr, some, ok,
}
use layer.Common.SafeMath.{u64_mod}
use layer.Common.Words.{le_bytes, length-le_bytes, le_value-le_bytes}
use layer.Common.Bytes.{var_bytes, var_uint_bytes}
use layer.Common.Source.Reading.{InMemory}
use layer.Native.Item.{StorageItem, item_bytes, deserialize_item-item_bytes}
use layer.Native.Store.{
  found, Db, as_item, item_of, read_word, word_of, get_storage_item, get_storage_uint64,
  gen_uint64_storage_item,
}

item_size : (v : ℕ) → length (item_bytes (gen_uint64_storage_item v)) ≡ 10
unfolding item_bytes gen_uint64_storage_item var_bytes var_uint_bytes le_bytes
item_size v = refl

pub uint64_item-pos : (v : ℕ) → 0 < length (item_bytes (gen_uint64_storage_item v))
uint64_item-pos v = omega (arith, item_size v)

pub item_of-item_bytes :
    (item : StorageItem)
    → InMemory (item_bytes item)
    → item_of (found (item_bytes item)) ≡ ok (some item)
unfolding item_of as_item
item_of-item_bytes item h = ap as_item (deserialize_item-item_bytes item h)

read_word-uint64 : (v : ℕ) → v < u64_mod → read_word 8 (gen_uint64_storage_item v).value ≡ ok v
unfolding read_word gen_uint64_storage_item
read_word-uint64 v h =
    let size = length-le_bytes 8 v in
    let enough : ltb (length (le_bytes 8 v)) 8 ≡ false = ground (arith, size) in
    rw (enough, take_all 8 (le_bytes 8 v) (omega (arith, size)), le_value-le_bytes 8 v h)

word_of-some :
    (v : ℕ)
    → word_of 8 (ok (some (gen_uint64_storage_item v)))
      ≡ read_word 8 (gen_uint64_storage_item v).value
unfolding word_of
word_of-some v = refl

pub word_of-uint64 :
    (v : ℕ)
    → v < u64_mod
    → word_of 8 (item_of (found (item_bytes (gen_uint64_storage_item v)))) ≡ ok v
word_of-uint64 v h =
    let item = gen_uint64_storage_item v in
    let small : InMemory (item_bytes item) = omega (arith, item_size v) in
    ap (word_of 8) (item_of-item_bytes item small) ∙ word_of-some v ∙ read_word-uint64 v h

module _ {S : Type 0} (db : Db S) where
  -- After a number below 2 ^ 64 is put under a key, `GetStorageUInt64` of any key gives that
  -- number for the same key, and what it gave before for another.
  pub get_storage_uint64-put :
      (s : S) (k j : List ℕ) (v : ℕ)
      → v < u64_mod
      → get_storage_uint64 db (db.put s k (item_bytes (gen_uint64_storage_item v))) j
        ≡ (if bytes_equal k j then ok v else get_storage_uint64 db s j)
  unfolding get_storage_uint64 get_storage_item
  get_storage_uint64-put s k j v h =
      rw (db.get-put s k (item_bytes (gen_uint64_storage_item v)) j (uint64_item-pos v))
        (elim (Bool-cases (bytes_equal k j)) [ inl e ↦ rw e (word_of-uint64 v h) | inr e ↦ rw e ])

  -- A deleted number reads as zero.
  pub get_storage_uint64-delete :
      (s : S) (k j : List ℕ)
      → get_storage_uint64 db (db.delete s k) j
        ≡ (if bytes_equal k j then ok 0 else get_storage_uint64 db s j)
  unfolding get_storage_uint64 get_storage_item word_of item_of
  get_storage_uint64-delete s k j =
      rw (db.get-delete s k j) (elim (Bool-cases (bytes_equal k j)) [ inl e ↦ rw e | inr e ↦ rw e ])
