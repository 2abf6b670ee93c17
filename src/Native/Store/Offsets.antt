-- ===== src/Native/Store/Offsets.antt =====
-- A 32-bit number that was stored is the number that is read.
use layer.Base.{
  ℕ, ◌<◌, ◌≡◌, refl, false, List, length, take_all, if◌then◌else◌, ltb, bytes_equal, arith,
  Bool-cases, inl, inr, ok,
}
use layer.Merkle.Util.{u32_mod}
use layer.Common.Words.{le_bytes, length-le_bytes, le_value-le_bytes}
use layer.Common.Bytes.{var_bytes, var_uint_bytes}
use layer.Common.Source.Reading.{InMemory}
use layer.Native.Item.{item_bytes}
use layer.Native.Store.{
  found, Db, item_of, read_word, word_of, get_storage_item, get_storage_uint32,
  gen_uint32_storage_item,
}
use layer.Native.Store.Numbers.{item_of-item_bytes}

item_size : (v : ℕ) → length (item_bytes (gen_uint32_storage_item v)) ≡ 6
unfolding item_bytes gen_uint32_storage_item var_bytes var_uint_bytes le_bytes
item_size v = refl

pub uint32_item-pos : (v : ℕ) → 0 < length (item_bytes (gen_uint32_storage_item v))
uint32_item-pos v = omega (arith, item_size v)

read_word-uint32 : (v : ℕ) → v < u32_mod → read_word 4 (gen_uint32_storage_item v).value ≡ ok v
unfolding read_word gen_uint32_storage_item
read_word-uint32 v h =
    let size = length-le_bytes 4 v in
    let enough : ltb (length (le_bytes 4 v)) 4 ≡ false = ground (arith, size) in
    rw (enough, take_all 4 (le_bytes 4 v) (omega (arith, size)), le_value-le_bytes 4 v h)

word_of-uint32 :
    (v : ℕ)
    → v < u32_mod
    → word_of 4 (item_of (found (item_bytes (gen_uint32_storage_item v)))) ≡ ok v
unfolding word_of
word_of-uint32 v h =
    let item = gen_uint32_storage_item v in
    let small : InMemory (item_bytes item) = omega (arith, item_size v) in
    rw (item_of-item_bytes item small) (read_word-uint32 v h)

pub get_storage_uint32-put :
    {S : Type 0} (db : Db S) (s : S) (k j : List ℕ) (v : ℕ)
    → v < u32_mod
    → get_storage_uint32 db (db.put s k (item_bytes (gen_uint32_storage_item v))) j
      ≡ (if bytes_equal k j then ok v else get_storage_uint32 db s j)
unfolding get_storage_uint32 get_storage_item
get_storage_uint32-put db s k j v h =
    rw (db.get-put s k (item_bytes (gen_uint32_storage_item v)) j (uint32_item-pos v))
      (elim (Bool-cases (bytes_equal k j)) [ inl e ↦ rw e (word_of-uint32 v h) | inr e ↦ rw e ])
