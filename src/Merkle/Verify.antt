-- ===== src/Merkle/Verify.antt =====
-- The MerkleVerifier of node/merkle/merkle_tree.go: audit paths and consistency proofs. Node numbers
-- are uint32 and halve in every round, so 33 rounds are enough; `no_fuel` would say that they were
-- not.
pub mod Audit
use layer.Base.{
  ℕ, zero, suc, ◌+◌, ◌-◌, ◌/◌, ◌%◌, Bool, true, false, ◌||◌, List, [], ◌∷◌, length, ltb, leb, ◌==◌,
  if◌then◌else◌, bytes_equal, Outcome, ok, err, ◌>>=◌, ◌>>◌, fail_if, not,
}
use layer.Merkle.Util.{u32_mod}
use layer.Merkle.Hasher.{Uint256, hash_leaf, hash_children}

pub data Error : Type 0 where
  size_below_index proof_too_short proof_too_long wrong_root : Error
  older_is_bigger wrong_proof_length bad_proof inconsistency no_fuel : Error

unfoldable pub audit_path_length_loop : ℕ → ℕ → ℕ → ℕ → ℕ
audit_path_length_loop zero index last_node len = len
audit_path_length_loop (suc n) index last_node len = elim (last_node == 0) [
  | true ↦ len
  | false ↦
      audit_path_length_loop n (index / 2) (last_node / 2)
        (if (index % 2 == 1) || ltb index last_node then len + 1 else len)
]

unfoldable pub audit_path_length : ℕ → ℕ → ℕ
audit_path_length index tree_size =
    audit_path_length_loop 33 index ((tree_size + u32_mod - 1) % u32_mod) 0

module _ (sha256 : List ℕ → Uint256) where
  -- One level of the tree: the hash so far is joined with the sibling, if there is one.
  unfoldable pub climb : ℕ → ℕ → Uint256 → Uint256 → List Uint256 → Uint256 × List Uint256
  climb node_index last_node hash sibling rest =
      if node_index % 2 == 1
      then (hash_children sha256 sibling hash, rest)
      else if ltb node_index last_node
      then (hash_children sha256 hash sibling, rest)
      else (hash, sibling ∷ rest)

  -- for last_node > 0; `path` is audit_path[pos:].
  unfoldable pub calculate_loop :
      ℕ → Uint256 → ℕ → ℕ → List Uint256 → Outcome Error (Uint256 × List Uint256)
  calculate_loop zero hash node_index last_node path = err no_fuel
  calculate_loop (suc n) hash node_index last_node path = elim (last_node == 0) [
    | true ↦ ok (hash, path)
    | false ↦ elim path [
      | [] ↦ err proof_too_short
      | sibling ∷ rest ↦
          let (hash', path') = climb node_index last_node hash sibling rest in
          calculate_loop n hash' (node_index / 2) (last_node / 2) path'
    ]
  ]

  unfoldable pub calculate_root_hash_from_audit_path :
      Uint256 → ℕ → List Uint256 → ℕ → Outcome Error Uint256
  calculate_root_hash_from_audit_path leaf_hash node_index audit_path tree_size = do
    (hash, left) ←
        calculate_loop 33 leaf_hash node_index ((tree_size + u32_mod - 1) % u32_mod) audit_path
    fail_if (ltb 0 (length left)) proof_too_long
    ok hash

  unfoldable pub verify_leaf_hash_inclusion :
      Uint256 → ℕ → List Uint256 → Uint256 → ℕ → Outcome Error (Unit {0})
  verify_leaf_hash_inclusion leaf_hash leaf_index proof root_hash tree_size = do
    fail_if (leb tree_size leaf_index) size_below_index
    calculated ← calculate_root_hash_from_audit_path leaf_hash leaf_index proof tree_size
    fail_if (not (bytes_equal calculated root_hash)) wrong_root

  unfoldable pub verify_leaf_inclusion :
      List ℕ → ℕ → List Uint256 → Uint256 → ℕ → Outcome Error (Unit {0})
  verify_leaf_inclusion leaf leaf_index proof root_hash tree_size =
      verify_leaf_hash_inclusion (hash_leaf sha256 leaf) leaf_index proof root_hash tree_size
