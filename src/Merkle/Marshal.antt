-- ===== src/Merkle/Marshal.antt =====
-- `Marshal` and `UnMarshal` of node/merkle/merkle_tree.go: a tree's size and hashes as bytes.
pub mod RoundTrip
use layer.Base.{
  ℕ, zero, suc, ◌+◌, ◌*◌, Option, none, some, List, [], ◌∷◌, ◌++◌, length, take, drop, ltb,
  if◌then◌else◌, Outcome, ok, err,
}
use mathlib.Core.List.{reverse}
use layer.Common.Words.{le_bytes, le_value}
use layer.Merkle.Util.{count_bit}
use layer.Merkle.Hasher.{Uint256}
use layer.Merkle.Tree.{CompactMerkleTree, update}

-- `panics` is a panic: of the slice `buf[0:4]`, or of `_update`.
pub data UnMarshalError : Type 0 where
  too_short panics : UnMarshalError

-- `PutUint32` and `Uint32` of `binary.BigEndian`, at n = 4.
unfoldable pub be_bytes : ℕ → ℕ → List ℕ
be_bytes n v = reverse (le_bytes n v)

unfoldable pub be_value : List ℕ → ℕ
be_value bs = le_value (reverse bs)

unfoldable pub hashes_bytes : List Uint256 → List ℕ
hashes_bytes [] = []
hashes_bytes (h ∷ hs) = h ++ hashes_bytes hs

unfoldable pub marshal : CompactMerkleTree → List ℕ
marshal tree = be_bytes 4 tree.tree_size ++ hashes_bytes tree.hashes

-- The first `n` hashes of `buf`.
unfoldable pub hashes_from : ℕ → List ℕ → List Uint256
hashes_from zero buf = []
hashes_from (suc n) buf = take 32 buf ∷ hashes_from n (drop 32 buf)

unfoldable pub or_panic : Option CompactMerkleTree → Outcome UnMarshalError CompactMerkleTree
or_panic none = err panics
or_panic (some tree) = ok tree

unfoldable pub un_marshal : CompactMerkleTree → List ℕ → Outcome UnMarshalError CompactMerkleTree
un_marshal tree buf =
    let tree_size = be_value (take 4 buf) in
    let nhashes = count_bit tree_size in
    if ltb (length buf) 4
    then err panics
    else if ltb (length buf) (4 + nhashes * 32)
    then err too_short
    else or_panic (update tree tree_size (hashes_from nhashes (drop 4 buf)))
