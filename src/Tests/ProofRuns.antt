-- ===== src/Tests/ProofRuns.antt =====
-- The inclusion proofs that a tree of four leaves makes from its hash store, given to the verifier.
use layer.Base.{◌≡◌, refl, [], ◌∷◌, some, ok, bytes_equal}
use layer.Merkle.Util.{count_bit, count_bit_loop, high_bit, high_bit_loop}
use layer.Merkle.Hasher.{Uint256, hash_children, fold_last, hash_fold, split_width}
use layer.Merkle.Tree.{CompactMerkleTree, empty_hash}
use layer.Merkle.Verify.{
  climb, calculate_loop, calculate_root_hash_from_audit_path, verify_leaf_hash_inclusion,
}
use layer.Merkle.StoredProof.{
  pred32, split_at, get_hash, get_hashes, sub_tree_loop, get_sub_tree_size, sums_from,
  get_sub_tree_pos, right_root, inclusion_loop, or_panics, inclusion_from, inclusion_proof,
}
use layer.Tests.{digest, leaf_a, leaf_b, leaf_c, leaf_d}

abbrev left_root : Uint256
left_root = hash_children digest leaf_a leaf_b

abbrev low_root : Uint256
low_root = hash_children digest leaf_c leaf_d

abbrev top_root : Uint256
top_root = hash_children digest left_root low_root

abbrev tree4 : CompactMerkleTree
tree4 = record {
  mintree_h = 3;
  hashes = top_root ∷ [];
  hash_store = some (leaf_a ∷ leaf_b ∷ left_root ∷ leaf_c ∷ leaf_d ∷ low_root ∷ top_root ∷ []);
  root_hash = empty_hash;
  tree_size = 4;
}

proof_of_second : inclusion_proof digest tree4 1 4 ≡ ok (leaf_a ∷ low_root ∷ [])
unfolding pred32 split_at get_hash get_hashes sub_tree_loop get_sub_tree_size sums_from
    get_sub_tree_pos right_root inclusion_loop or_panics inclusion_from inclusion_proof count_bit
    count_bit_loop high_bit high_bit_loop hash_children fold_last hash_fold split_width
proof_of_second = refl

second_is_verified :
    verify_leaf_hash_inclusion digest leaf_b 1 (leaf_a ∷ low_root ∷ []) top_root 4 ≡ ok tt
unfolding climb calculate_loop calculate_root_hash_from_audit_path verify_leaf_hash_inclusion
    bytes_equal hash_children
second_is_verified = refl
