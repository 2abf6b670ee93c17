-- ===== src/Merkle/Marshal/RoundTrip.antt =====
-- A tree is read back from its bytes.
use layer.Base.{
  ℕ, ◌+◌, ◌*◌, ◌^◌, ◌<◌, ◌≡◌, refl, ap, ◌∙◌, sym, inl, List, [], ◌∷◌, ◌++◌, length, length-append,
  length-reverse, take-append_left, drop-append_left, All, ltb, ◌==◌, true, false, ok, arith,
}
use mathlib.Core.List.{reverse-reverse}
use layer.Common.Words.{le_bytes, le_value, length-le_bytes, le_value-le_bytes}
use layer.Merkle.Util.{count_bit, low_bit}
use layer.Merkle.Hasher.{Uint256}
use layer.Merkle.Tree.{CompactMerkleTree, update, empty_hash}
use layer.Merkle.Root.{IsTreeOf, IsTreeOf-count}
use layer.Merkle.Marshal.{
  be_bytes, be_value, hashes_bytes, marshal, hashes_from, or_panic, un_marshal,
}

abbrev pub IsHash : Uint256 → Type 0
IsHash h = length h ≡ 32

length-be_bytes : (n v : ℕ) → length (be_bytes n v) ≡ n
unfolding be_bytes
length-be_bytes n v = length-reverse (le_bytes n v) ∙ length-le_bytes n v

be_value-be_bytes : (n v : ℕ) → v < 256 ^ n → be_value (be_bytes n v) ≡ v
unfolding be_bytes be_value
be_value-be_bytes n v h = ap le_value (reverse-reverse (le_bytes n v)) ∙ le_value-le_bytes n v h

length-hashes_bytes :
    (hs : List Uint256) → All IsHash hs → length (hashes_bytes hs) ≡ length hs * 32
unfolding hashes_bytes
length-hashes_bytes [] all = refl
length-hashes_bytes (h ∷ hs) (len, all) =
    omega (arith, length-append h (hashes_bytes hs), length-hashes_bytes hs all)

hashes_from-hashes_bytes :
    (hs : List Uint256) → All IsHash hs → hashes_from (length hs) (hashes_bytes hs) ≡ hs
unfolding hashes_bytes hashes_from
hashes_from-hashes_bytes [] all = refl
hashes_from-hashes_bytes (h ∷ hs) (len, all) =
    let rest = hashes_bytes hs in
    rw (
      take-append_left 32 h rest len,
      drop-append_left 32 h rest len,
      hashes_from-hashes_bytes hs all,
    )

module _ (sha256 : List ℕ → Uint256) where
  -- For a tree of the leaves `ls` whose hashes have 32 bytes each, `UnMarshal` into any tree of
  -- what `Marshal` gives succeeds, and leaves a tree of `ls` with the same hashes.
  pub un_marshal-marshal :
      (tree other : CompactMerkleTree) (ls : List Uint256)
      → IsTreeOf sha256 tree ls
      → All IsHash tree.hashes
      → (tree' : CompactMerkleTree) × (un_marshal other (marshal tree) ≡ ok tree')
        × (tree'.hashes ≡ tree.hashes)
        × IsTreeOf sha256 tree' ls
  unfolding un_marshal marshal update or_panic
  un_marshal-marshal tree other ls t all =
      let n = tree.tree_size in
      let hs = hashes_bytes tree.hashes in
      let head = be_bytes 4 n in
      let four = length-be_bytes 4 n in
      let count : count_bit n ≡ length tree.hashes = sym (IsTreeOf-count sha256 t) in
      let total = length-append head hs in
      let size = length-hashes_bytes tree.hashes all in
      let long : ltb (length (head ++ hs)) 4 ≡ false = ground arith in
      let enough : ltb (length (head ++ hs)) (4 + length tree.hashes * 32) ≡ false = ground arith in
      let same : (length tree.hashes == length tree.hashes) ≡ true = ground arith in
      (
        record other {
          tree_size = n;
          hashes = tree.hashes;
          mintree_h = low_bit n;
          root_hash = empty_hash;
        },
        rw (
          take-append_left 4 head hs four,
          drop-append_left 4 head hs four,
          be_value-be_bytes 4 n t.small,
          count,
          long,
          enough,
          hashes_from-hashes_bytes tree.hashes all,
          same,
        ),
        refl,
        record {
          roots = t.roots;
          hashes = t.hashes;
          forest = t.forest;
          small = t.small;
          kept = inl refl;
        },
      )
