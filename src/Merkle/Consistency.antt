-- ===== src/Merkle/Consistency.antt =====
-- `VerifyConsistency` of the MerkleVerifier of node/merkle/merkle_tree.go. `proof` is the code's
-- proof[pos:]. A node number is a uint32 and halves in every round, so 33 rounds are enough.
pub mod Ends
use layer.Base.{
  ℕ, zero, suc, ◌+◌, ◌-◌, ◌/◌, ◌%◌, Bool, true, false, not, List, [], ◌∷◌, length, ltb, ◌==◌,
  if◌then◌else◌, bytes_equal, Outcome, ok, err, ◌>>=◌, ◌>>◌, fail_if,
}
use layer.Merkle.Hasher.{Uint256, hash_children}
use layer.Merkle.Verify.{
  Error, older_is_bigger, wrong_proof_length, bad_proof, inconsistency, proof_too_long, no_fuel,
}

-- The variables of the two loops up to the root of the older tree.
pub record Climb : Type 0 where
  pub node : ℕ
  pub last_node : ℕ
  pub old_hash : Uint256
  pub new_hash : Uint256
  pub proof : List Uint256

-- for node%2 == 1: the two nodes where it ends.
unfoldable pub leave_right : ℕ → ℕ → ℕ → Outcome Error (ℕ × ℕ)
leave_right zero node last_node = err no_fuel
leave_right (suc fuel) node last_node = elim (node % 2 == 1) [
  | true ↦ leave_right fuel (node / 2) (last_node / 2)
  | false ↦ ok (node, last_node)
]

unfoldable pub first_hash : ℕ → ℕ → Uint256 → List Uint256 → Outcome Error Climb
first_hash node last_node old_root [] = err wrong_proof_length
first_hash node last_node old_root (p ∷ rest) =
    if node == 0
    then ok (record {
      node = node;
      last_node = last_node;
      old_hash = old_root;
      new_hash = old_root;
      proof = p ∷ rest;
    })
    else ok
        (record { node = node; last_node = last_node; old_hash = p; new_hash = p; proof = rest })

-- One proof[pos], with pos += 1.
unfoldable pub next_node : List Uint256 → Outcome Error (Uint256 × List Uint256)
next_node [] = err wrong_proof_length
next_node (p ∷ rest) = ok (p, rest)

module _ (sha256 : List ℕ → Uint256) where
  -- The three cases of the loop's body.
  unfoldable pub climb_both : Climb → Outcome Error Climb
  climb_both c = do
    (p, rest) ← next_node c.proof
    ok (record c {
      old_hash = hash_children sha256 p c.old_hash;
      new_hash = hash_children sha256 p c.new_hash;
      proof = rest;
    })

  unfoldable pub climb_new : Climb → Outcome Error Climb
  climb_new c = do
    (p, rest) ← next_node c.proof
    ok (record c { new_hash = hash_children sha256 c.new_hash p; proof = rest })

  unfoldable pub climb_level : Climb → Outcome Error Climb
  climb_level c =
      if c.node % 2 == 1 then climb_both c else if ltb c.node c.last_node then climb_new c else ok c

  -- for node != 0
  unfoldable pub climb_old : ℕ → Climb → Outcome Error Climb
  climb_old zero c = err no_fuel
  climb_old (suc fuel) c = elim (c.node == 0) [
    | true ↦ ok c
    | false ↦ do
      c' ← climb_level c
      climb_old fuel (record c' { node = c'.node / 2; last_node = c'.last_node / 2 })
  ]

  -- for last_node != 0
  unfoldable pub climb_rest : ℕ → Climb → Outcome Error Climb
  climb_rest zero c = err no_fuel
  climb_rest (suc fuel) c = elim (c.last_node == 0) [
    | true ↦ ok c
    | false ↦ do c' ← climb_new c; climb_rest fuel (record c' { last_node = c'.last_node / 2 })
  ]

  unfoldable pub check_roots : Uint256 → Uint256 → Climb → Outcome Error (Unit {0})
  check_roots old_root new_root c =
      fail_if (not (bytes_equal c.new_hash new_root)) bad_proof
      >> (fail_if (not (bytes_equal c.old_hash old_root)) inconsistency
          >> fail_if (ltb 0 (length c.proof)) proof_too_long)

  -- What follows the early returns.
  unfoldable pub verify_sizes : ℕ → ℕ → Uint256 → Uint256 → List Uint256 → Outcome Error (Unit {0})
  verify_sizes old_size new_size old_root new_root proof = do
    (node, last_node) ← leave_right 33 (old_size - 1) (new_size - 1)
    c ← first_hash node last_node old_root proof
    c' ← climb_old 33 c
    c'' ← climb_rest 33 c'
    check_roots old_root new_root c''

  unfoldable pub verify_consistency :
      ℕ → ℕ → Uint256 → Uint256 → List Uint256 → Outcome Error (Unit {0})
  verify_consistency old_size new_size old_root new_root proof =
      if ltb new_size old_size
      then err older_is_bigger
      else if bytes_equal old_root new_root
      then ok tt
      else if old_size == 0
      then ok tt
      else verify_sizes old_size new_size old_root new_root proof
