-- ===== src/Merkle/Proof/Encoded.antt =====
-- What MerkleProve makes of the bytes of a value and of the steps up to the root.
use layer.Base.{
  ℕ, ◌+◌, ◌-◌, ◌*◌, ◌/◌, ◌%◌, ◌<◌, ◌≡◌, refl, false, List, [], ◌∷◌, ◌++◌, append_assoc, length,
  length-append, All, ◌==◌, if◌then◌else◌, bytes_equal, ok, err, arith, Bool-cases, inl, inr,
}
use layer.Common.SafeMath.{u64_mod}
use layer.Common.Bytes.{var_bytes}
use layer.Common.Source.{new_source, next_hash, next_array, size, position}
use layer.Common.Source.Reading.{
  reading, InMemory, next_byte-reading, next_bytes-reading, next_var_bytes-reading,
}
use layer.Merkle.Hasher.{Uint256, hash_leaf, hash_children}
use layer.Merkle.Proof.{unexpected_root, left, join_sibling, prove_loop, merkle_prove}

-- A step to the parent: the side of the sibling, and the sibling.
pub record Step : Type 0 where
  pub side : ℕ
  pub sibling : Uint256

abbrev pub IsStep : Step → Type 0
IsStep step = length step.sibling ≡ 32

abbrev pub steps_bytes : List Step → List ℕ
steps_bytes [] = []
steps_bytes (step ∷ steps) = step.side ∷ (step.sibling ++ steps_bytes steps)

next_hash-reading :
    (pre rest h : List ℕ)
    → length h ≡ 32
    → InMemory (pre ++ (h ++ rest))
    → next_hash (reading pre (h ++ rest)) ≡ (h, false, reading (pre ++ h) rest)
unfolding next_hash next_array
next_hash-reading pre rest h len m = rw (next_bytes-reading pre h rest 32 len m)

length-steps_bytes :
    (steps : List Step) → All IsStep steps → length (steps_bytes steps) ≡ 33 * length steps
length-steps_bytes [] all = refl
length-steps_bytes (step ∷ steps) (len, all) =
    omega (arith, length-append step.sibling (steps_bytes steps), length-steps_bytes steps all)

module _ (sha256 : List ℕ → Uint256) where
  -- The root that the steps lead to.
  abbrev pub climbed : Uint256 → List Step → Uint256
  climbed hash [] = hash
  climbed hash (step ∷ steps) =
      climbed
        (if step.side == left
          then hash_children sha256 step.sibling hash
          else hash_children sha256 hash step.sibling)
        steps

  prove_loop-steps :
      (pre : List ℕ) (steps : List Step) (hash : Uint256)
      → All IsStep steps
      → InMemory (pre ++ steps_bytes steps)
      → prove_loop sha256 (length steps) (reading pre (steps_bytes steps)) hash
        ≡ ok (climbed hash steps)
  unfolding prove_loop join_sibling
  prove_loop-steps pre [] hash all m = refl
  prove_loop-steps pre (step ∷ steps) hash (len, all) m =
      let b = step.side in
      let h = step.sibling in
      let rest = steps_bytes steps in
      let m1 : InMemory ((pre ++ (b ∷ [])) ++ (h ++ rest)) =
        rw (append_assoc pre (b ∷ []) (h ++ rest)) m in
      let m2 : InMemory (((pre ++ (b ∷ [])) ++ h) ++ rest) =
        rw (append_assoc (pre ++ (b ∷ [])) h rest) m1 in
      rw (next_byte-reading pre (h ++ rest) b, next_hash-reading (pre ++ (b ∷ [])) rest h len m1)
        (prove_loop-steps ((pre ++ (b ∷ [])) ++ h) steps _ all m2)

  -- Given the bytes of a value and of fewer than 32 steps with siblings of 32 bytes, shorter than
  -- 2 ^ 63 in all, `MerkleProve` gives the value where the steps lead from the value's leaf hash
  -- to the root, and the error of an unexpected root otherwise.
  pub merkle_prove-steps :
      (value : List ℕ) (steps : List Step) (root : Uint256)
      → All IsStep steps
      → length steps < 32
      → InMemory (var_bytes value ++ steps_bytes steps)
      → merkle_prove sha256 (var_bytes value ++ steps_bytes steps) root ≡ (
          if bytes_equal (climbed (hash_leaf sha256 value) steps) root
          then ok value
          else err unexpected_root)
  unfolding merkle_prove new_source size position
  merkle_prove-steps value steps root all few m =
      let v = var_bytes value in
      let turns : ((length (v ++ steps_bytes steps) + u64_mod - length v) % u64_mod) / 32
          ≡ length steps =
        omega (arith, length-append v (steps_bytes steps), length-steps_bytes steps all) in
      rw
        (
          next_var_bytes-reading [] (steps_bytes steps) value m,
          turns,
          prove_loop-steps v steps (hash_leaf sha256 value) all m,
        )
        (elim (Bool-cases (bytes_equal (climbed (hash_leaf sha256 value) steps) root)) [
          | inl e ↦ rw e
          | inr e ↦ rw e
        ])
