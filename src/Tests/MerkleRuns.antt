-- ===== src/Tests/MerkleRuns.antt =====
-- The Merkle theorems at a tree of three leaves.
use layer.Base.{◌≡◌, refl, arith, inl, List, [], ◌∷◌, ◌++◌, length, some, ok}
use mathlib.Core.List.{reverse}
use layer.Merkle.Util.{count_bit}
use layer.Merkle.Hasher.{Uint256, hash_children, hash_full_tree_with_leaf_hash}
use layer.Merkle.Tree.{
  CompactMerkleTree, append_hash, append_hashes, root, get_root_with_new_leaf,
  get_root_with_new_leaves,
}
use layer.Merkle.Verify.{verify_leaf_hash_inclusion}
use layer.Merkle.Forest.{Full, Forest}
use layer.Merkle.Bits.{ones, count_bit-ones}
use layer.Merkle.Root.{
  IsTreeOf, IsTreeOf-count, append_hash-IsTreeOf, root-eq-hash_full, get_root_with_new_leaf-eq,
  get_root_with_new_leaves-eq, append_hashes-IsTreeOf,
}
use layer.Merkle.Verify.Audit.{verify-append}
use layer.Common.Bytes.{var_bytes, var_uint_bytes}
use layer.Merkle.Hasher.{hash_leaf}
use layer.Merkle.Proof.{unexpected_root, left, right, merkle_prove}
use layer.Merkle.Proof.Encoded.{Step, steps_bytes, climbed, merkle_prove-steps}
use layer.Merkle.Marshal.{marshal, un_marshal}
use layer.Merkle.Marshal.RoundTrip.{un_marshal-marshal}
use layer.Merkle.Verify.{no_fuel}
use layer.Merkle.Consistency.{verify_consistency}
use layer.Merkle.Consistency.Ends.{verify_consistency-no_fuel}
use layer.Base.{◌≢◌, if◌then◌else◌, bytes_equal, err}
use layer.Tests.{digest, leaf_a, leaf_b, leaf_c, leaf_d, tree3}

abbrev leaves3 : List Uint256
leaves3 = leaf_a ∷ leaf_b ∷ leaf_c ∷ []

tree3-IsTreeOf : IsTreeOf digest tree3 leaves3
tree3-IsTreeOf = record {
  roots = leaf_c ∷ hash_children digest leaf_a leaf_b ∷ [];
  hashes = refl;
  forest =
      Forest.odd {s' = 1} {front = leaf_a ∷ leaf_b ∷ []} {blk = leaf_c ∷ []} refl refl refl
        (Full.leaf refl refl)
        (Forest.odd {s' = 0} {front = []} {blk = leaf_a ∷ leaf_b ∷ []} refl refl refl
          (Full.node {left = leaf_a ∷ []} {right = leaf_b ∷ []} refl refl refl (Full.leaf refl refl)
            (Full.leaf refl refl))
          (Forest.done refl refl refl));
  small = omega arith;
  kept = inl refl;
}

root-eq-hash_full_example :
    (r : Uint256) × (tree' : CompactMerkleTree) × (root digest tree3 ≡ some (r, tree'))
    × (hash_full_tree_with_leaf_hash digest leaves3 ≡ some r)
    × IsTreeOf digest tree' leaves3
root-eq-hash_full_example = root-eq-hash_full digest tree3 leaves3 tree3-IsTreeOf

verify-append_example :
    (path : List Uint256) × (tree' : CompactMerkleTree) × (r : Uint256) × (append_hash digest tree3
        leaf_d
      ≡ some (path, tree'))
    × (hash_full_tree_with_leaf_hash digest (leaves3 ++ (leaf_d ∷ [])) ≡ some r)
    × (verify_leaf_hash_inclusion digest leaf_d 3 path r 4 ≡ ok tt)
verify-append_example = verify-append digest tree3 leaves3 leaf_d tree3-IsTreeOf (omega arith)

append_hash-IsTreeOf_example :
    (tree' : CompactMerkleTree) × (append_hash digest tree3 leaf_d
      ≡ some (reverse tree3.hashes, tree'))
    × IsTreeOf digest tree' (leaves3 ++ (leaf_d ∷ []))
append_hash-IsTreeOf_example =
    append_hash-IsTreeOf digest tree3 leaves3 leaf_d tree3-IsTreeOf (omega arith)

append_hashes-IsTreeOf_run :
    (tree' : CompactMerkleTree) × (append_hashes digest tree3 (leaf_d ∷ leaf_a ∷ []) ≡ some tree')
    × IsTreeOf digest tree' (leaves3 ++ (leaf_d ∷ leaf_a ∷ []))
append_hashes-IsTreeOf_run =
    append_hashes-IsTreeOf digest tree3 leaves3 (leaf_d ∷ leaf_a ∷ []) tree3-IsTreeOf (omega arith)

get_root_with_new_leaf-eq_run :
    get_root_with_new_leaf digest tree3 leaf_d
    ≡ hash_full_tree_with_leaf_hash digest (leaves3 ++ (leaf_d ∷ []))
get_root_with_new_leaf-eq_run =
    get_root_with_new_leaf-eq digest tree3 leaves3 leaf_d tree3-IsTreeOf (omega arith)

get_root_with_new_leaves-eq_example :
    (r : Uint256) × (get_root_with_new_leaves digest tree3 (leaf_d ∷ leaf_a ∷ []) ≡ some r)
    × (hash_full_tree_with_leaf_hash digest (leaves3 ++ (leaf_d ∷ leaf_a ∷ [])) ≡ some r)
get_root_with_new_leaves-eq_example =
    get_root_with_new_leaves-eq digest tree3 leaves3 (leaf_d ∷ leaf_a ∷ []) tree3-IsTreeOf
      (omega arith)

IsTreeOf-count_run : length tree3.hashes ≡ count_bit 3
IsTreeOf-count_run = IsTreeOf-count digest tree3-IsTreeOf

count_bit-ones_run : count_bit 0xb5 ≡ ones 32 0xb5
count_bit-ones_run = count_bit-ones 0xb5 (omega arith)

un_marshal-marshal_example :
    (tree' : CompactMerkleTree) × (un_marshal tree3 (marshal tree3) ≡ ok tree')
    × (tree'.hashes ≡ tree3.hashes)
    × IsTreeOf digest tree' leaves3
unfolding hash_children
un_marshal-marshal_example =
    un_marshal-marshal digest tree3 tree3 leaves3 tree3-IsTreeOf (refl, (refl, tt))

abbrev steps2 : List Step
steps2 = record { side = left; sibling = leaf_b } ∷ record { side = right; sibling = leaf_c } ∷ []

merkle_prove-steps_example :
    merkle_prove digest (var_bytes (1 ∷ 2 ∷ []) ++ steps_bytes steps2) leaf_d ≡ (
      if bytes_equal (climbed digest (hash_leaf digest (1 ∷ 2 ∷ [])) steps2) leaf_d
      then ok (1 ∷ 2 ∷ [])
      else err unexpected_root)
unfolding var_bytes var_uint_bytes
merkle_prove-steps_example =
    merkle_prove-steps digest (1 ∷ 2 ∷ []) steps2 leaf_d (refl, (refl, tt)) (omega arith)
      (omega arith)

verify_consistency-no_fuel_example :
    verify_consistency digest 3 4 leaf_a leaf_b (leaf_c ∷ []) ≢ err no_fuel
verify_consistency-no_fuel_example =
    verify_consistency-no_fuel digest 3 4 leaf_a leaf_b (leaf_c ∷ []) (omega arith) (omega arith)
