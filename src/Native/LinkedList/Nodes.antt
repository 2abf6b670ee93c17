-- ===== src/Native/LinkedList/Nodes.antt =====
-- Nodes and heads are read back as they were written, and their keys keep apart.
use layer.Base.{
  ℕ, ◌+◌, ◌<◌, ◌≤◌, ◌≡◌, refl, ap, false, List, [], ◌++◌, append_assoc, append-nil, length,
  length-append, ltb, leb, ◌==◌, if◌then◌else◌, some, ok, arith, Bool-cases, inl, inr, bytes_equal,
  bytes_equal-append,
}
use layer.Common.Words.{le_bytes}
use layer.Common.Bytes.{var_bytes, var_uint_bytes}
use layer.Common.Source.{new_source}
use layer.Common.Source.Reading.{reading, InMemory, next_var_bytes-reading}
use layer.Native.Item.{
  StorageItem, item_bytes, get_value_from_raw_storage_item, gen_raw_storage_item,
  deserialize_item-item_bytes,
}
use layer.Native.Store.{found, Db}
use layer.Native.LinkedList.{
  LinkedlistNode, node_bytes, decode_var_bytes, deserialize_node, as_value, value_of, is_nil,
  node_of, put_bytes, put_node, get_list_node,
}

decode-reading :
    (pre rest p : List ℕ)
    → InMemory (pre ++ (var_bytes p ++ rest))
    → decode_var_bytes (reading pre (var_bytes p ++ rest))
      ≡ ok (p, reading (pre ++ var_bytes p) rest)
unfolding decode_var_bytes
decode-reading pre rest p m = rw (next_var_bytes-reading pre rest p m)

-- A list node whose bytes are fewer than 2 ^ 63 is read back whole by `Deserialization`.
pub deserialize_node-node_bytes :
    (node : LinkedlistNode)
    → InMemory (node_bytes node)
    → deserialize_node (node_bytes node) ≡ ok node
unfolding deserialize_node node_bytes new_source
deserialize_node-node_bytes node m =
    let n = var_bytes node.next in
    let p = var_bytes node.prev in
    let q = var_bytes node.payload in
    let whole : reading (n ++ p) (q ++ []) ≡ reading (n ++ p) q = rw append-nil in
    let m2 : InMemory (n ++ (p ++ q)) = m in
    let m3 : InMemory ((n ++ p) ++ (q ++ [])) = rw (append-nil, append_assoc n p q) m in
    rw (
      decode-reading [] (p ++ q) node.next m,
      decode-reading n q node.prev m2,
      ← whole,
      decode-reading (n ++ p) [] node.payload m3,
    )

var_uint_bytes_size : (v : ℕ) → (0 < length (var_uint_bytes v)) × (length (var_uint_bytes v) ≤ 9)
unfolding var_uint_bytes le_bytes
var_uint_bytes_size v = elim (Bool-cases (ltb v 0xfd)) [
  | inl e ↦ rw e (omega arith, omega arith)
  | inr e ↦ rw e (elim (Bool-cases (leb v 0xffff)) [
    | inl f ↦ rw f (omega arith, omega arith)
    | inr f ↦ rw f (elim (Bool-cases (leb v 0xffff_ffff)) [
      | inl g ↦ rw g (omega arith, omega arith)
      | inr g ↦ rw g (omega arith, omega arith)
    ])
  ])
]

var_bytes_size : (p : List ℕ) → (0 < length (var_bytes p)) × (length (var_bytes p) ≤ length p + 9)
unfolding var_bytes
var_bytes_size p =
    let (more, most) = var_uint_bytes_size (length p) in
    let sum = length-append (var_uint_bytes (length p)) p in (omega arith, omega arith)

-- The three parts of a node and the encodings around them fit a Go slice.
abbrev pub IsSmall : LinkedlistNode → Type 0
IsSmall node = length node.next + length node.prev + length node.payload < 0x4000_0000_0000_0000

node_bytes_size :
    (node : LinkedlistNode)
    → IsSmall node
    → (0 < length (node_bytes node)) × (length (node_bytes node) < 0x5000_0000_0000_0000)
unfolding node_bytes
node_bytes_size node small =
    let (a, b) = var_bytes_size node.next in
    let (c, d) = var_bytes_size node.prev in
    let (e, f) = var_bytes_size node.payload in
    let tail = length-append (var_bytes node.prev) (var_bytes node.payload) in
    let all = length-append (var_bytes node.next) (var_bytes node.prev ++ var_bytes node.payload) in
    (omega arith, omega arith)

raw_item_size :
    (value : List ℕ)
    → length value < 0x5000_0000_0000_0000
    → (0 < length (gen_raw_storage_item value)) × InMemory (gen_raw_storage_item value)
unfolding gen_raw_storage_item item_bytes
raw_item_size value small = let (a, b) = var_bytes_size value in (omega arith, omega arith)

get_value-gen_raw :
    (value : List ℕ)
    → length value < 0x5000_0000_0000_0000
    → get_value_from_raw_storage_item (gen_raw_storage_item value) ≡ ok value
unfolding get_value_from_raw_storage_item
get_value-gen_raw value small =
    let item : StorageItem = record { state_version = 0; value = value } in
    let raw : gen_raw_storage_item value ≡ item_bytes item = unfold gen_raw_storage_item in refl in
    let fits : InMemory (item_bytes item) = rw (← raw) (raw_item_size value small).1 in
    rw (raw, deserialize_item-item_bytes item fits)

node_of-node_bytes :
    (node : LinkedlistNode) → IsSmall node → node_of (node_bytes node) ≡ ok (some node)
unfolding node_of is_nil
node_of-node_bytes node small =
    let (more, fits) = node_bytes_size node small in
    let used : (length (node_bytes node) == 0) ≡ false = ground arith in
    rw (used, deserialize_node-node_bytes node (omega arith))

value_of-raw :
    (value : List ℕ)
    → length value < 0x5000_0000_0000_0000
    → value_of (found (gen_raw_storage_item value)) ≡ ok value
unfolding value_of as_value
value_of-raw value small = ap as_value (get_value-gen_raw value small)

module _ {S : Type 0} (db : Db S) where
  -- A value that was put is the value under its key, and the others stay.
  pub value-put_bytes :
      (s : S) (k j value : List ℕ)
      → length value < 0x5000_0000_0000_0000
      → value_of (db.get (put_bytes db s k value) j)
        ≡ (if bytes_equal k j then ok value else value_of (db.get s j))
  unfolding put_bytes
  value-put_bytes s k j value small =
      rw (db.get-put s k (gen_raw_storage_item value) j (raw_item_size value small).0)
        (elim (Bool-cases (bytes_equal k j)) [
          | inl e ↦ rw e (value_of-raw value small)
          | inr e ↦ rw e
        ])

  -- The node that was put is the node at its item, and the others stay.
  pub get_list_node-put_node :
      (s : S) (index item j : List ℕ) (node : LinkedlistNode)
      → IsSmall node
      → get_list_node db (put_node db s index item node) index j
        ≡ (if bytes_equal item j then ok (some node) else get_list_node db s index j)
  unfolding put_node get_list_node
  get_list_node-put_node s index item j node small =
      rw
        (
          value-put_bytes s (index ++ item) (index ++ j) (node_bytes node)
              (node_bytes_size node small).1,
          bytes_equal-append index item j,
        )
        (elim (Bool-cases (bytes_equal item j)) [
          | inl e ↦ rw e (node_of-node_bytes node small)
          | inr e ↦ rw e
        ])
