-- ===== src/Merkle/Consistency/Ends.antt =====
-- The loops of VerifyConsistency end within their rounds.
use layer.Base.{
  ℕ, zero, suc, ◌-◌, ◌/◌, ◌%◌, ◌^◌, ◌<◌, ◌≤◌, ◌≡◌, ◌≢◌, refl, Bool, true, false, not, List, [], ◌∷◌,
  length, ltb, ◌==◌, bytes_equal, Outcome, ok, err, ◌>>=◌, fail_if, arith, Bool-cases, inl, inr,
}
use native.Mathlib.Nat.{pow-suc}
use layer.Merkle.Util.{u32_mod}
use layer.Merkle.Hasher.{Uint256}
use layer.Merkle.Verify.{Error, bad_proof, inconsistency, proof_too_long, no_fuel}
use layer.Merkle.Consistency.{
  Climb, leave_right, first_hash, next_node, climb_both, climb_new, climb_level, climb_old,
  climb_rest, check_roots, verify_sizes, verify_consistency,
}

-- A computation does not run out of fuel, and a value that it gives has `P`.
pub data Ends {A : Type 0} (P : A → Type 0) : Outcome Error A → Type 0 where
  gives : {a : A} → P a → Ends P (ok a)
  fails : {e : Error} → e ≢ no_fuel → Ends P (err e)

Ends->>= :
    {A B : Type 0} {P : A → Type 0} {Q : B → Type 0} {m : Outcome Error A} (f : A → Outcome Error B)
    → Ends P m
    → ((a : A) → P a → Ends Q (f a))
    → Ends Q (m >>= f)
Ends->>= f (gives h) k = k _ h
Ends->>= f (fails h) k = fails h

Ends-no_fuel : {A : Type 0} {P : A → Type 0} {m : Outcome Error A} → Ends P m → m ≢ err no_fuel
Ends-no_fuel (gives h) e = cc
Ends-no_fuel (fails h) e = h cc

leave_right-Ends :
    (b node last n l : ℕ)
    → node < 2 ^ b
    → node ≤ n
    → last ≤ l
    → Ends (λ r. (r.0 ≤ n) × (r.1 ≤ l)) (leave_right (suc b) node last)
unfolding leave_right
leave_right-Ends zero node last n l h a c =
    let even : (node % 2 == 1) ≡ false = ground arith in rw (even, leave_right) (gives (a, c))
leave_right-Ends (suc b) node last n l h a c = elim (Bool-cases (node % 2 == 1)) [
  | inl e ↦
      rw (e, leave_right)
        (leave_right-Ends b (node / 2) (last / 2) n l (omega (arith, pow-suc 2 b)) (omega arith)
          (omega arith))
  | inr e ↦ rw (e, leave_right) (gives (a, c))
]

-- A level keeps the two node numbers.
abbrev SameNodes : Climb → Climb → Type 0
SameNodes c c' = (c'.node ≡ c.node) × (c'.last_node ≡ c.last_node)

next_node-Ends : (proof : List Uint256) → Ends (λ r. Unit {0}) (next_node proof)
unfolding next_node
next_node-Ends [] = fails cc
next_node-Ends (p ∷ rest) = gives tt

first_hash-Ends :
    (node last : ℕ) (old_root : Uint256) (proof : List Uint256)
    → Ends (λ c. (c.node ≡ node) × (c.last_node ≡ last)) (first_hash node last old_root proof)
unfolding first_hash
first_hash-Ends node last old_root [] = fails cc
first_hash-Ends node last old_root (p ∷ rest) = elim (Bool-cases (node == 0)) [
  | inl e ↦ rw e (gives (refl, refl))
  | inr e ↦ rw e (gives (refl, refl))
]

module _ (sha256 : List ℕ → Uint256) where
  climb_both-Ends : (c : Climb) → Ends (SameNodes c) (climb_both sha256 c)
  unfolding climb_both
  climb_both-Ends c = Ends->>= _ (next_node-Ends c.proof) (λ r h. gives (refl, refl))

  climb_new-Ends : (c : Climb) → Ends (SameNodes c) (climb_new sha256 c)
  unfolding climb_new
  climb_new-Ends c = Ends->>= _ (next_node-Ends c.proof) (λ r h. gives (refl, refl))

  climb_level-Ends : (c : Climb) → Ends (SameNodes c) (climb_level sha256 c)
  unfolding climb_level
  climb_level-Ends c = elim (Bool-cases (c.node % 2 == 1)) [
    | inl e ↦ rw e (climb_both-Ends c)
    | inr e ↦ rw e (elim (Bool-cases (ltb c.node c.last_node)) [
      | inl f ↦ rw f (climb_new-Ends c)
      | inr f ↦ rw f (gives (refl, refl))
    ])
  ]

  climb_old-Ends :
      (b l : ℕ) (c : Climb)
      → c.node < 2 ^ b
      → c.last_node ≤ l
      → Ends (λ c'. c'.last_node ≤ l) (climb_old sha256 (suc b) c)
  unfolding climb_old
  climb_old-Ends zero l c h a =
      let none_left : (c.node == 0) ≡ true = ground arith in rw (none_left, climb_old) (gives a)
  climb_old-Ends (suc b) l c h a = elim (Bool-cases (c.node == 0)) [
    | inl e ↦ rw (e, climb_old) (gives a)
    | inr e ↦
        rw (e, climb_old)
          (Ends->>= _ (climb_level-Ends c) (λ c' same.
            climb_old-Ends b l _ (omega (arith, pow-suc 2 b, same.0)) (omega (arith, same.1))))
  ]

  climb_rest-Ends :
      (b : ℕ) (c : Climb)
      → c.last_node < 2 ^ b
      → Ends (λ c'. Unit {0}) (climb_rest sha256 (suc b) c)
  unfolding climb_rest
  climb_rest-Ends zero c h =
      let none_left : (c.last_node == 0) ≡ true = ground arith in
      rw (none_left, climb_rest) (gives tt)
  climb_rest-Ends (suc b) c h = elim (Bool-cases (c.last_node == 0)) [
    | inl e ↦ rw (e, climb_rest) (gives tt)
    | inr e ↦
        rw (e, climb_rest)
          (Ends->>= _ (climb_new-Ends c)
            (λ c' same. climb_rest-Ends b _ (omega (arith, pow-suc 2 b, same.1))))
  ]

  fail_if-Ends : (t : Bool) (e : Error) → e ≢ no_fuel → Ends (λ u. Unit {0}) (fail_if t e)
  fail_if-Ends true e h = fails h
  fail_if-Ends false e h = gives tt

  check_roots-Ends :
      (old_root new_root : Uint256) (c : Climb)
      → Ends (λ u. Unit {0}) (check_roots sha256 old_root new_root c)
  unfolding check_roots
  check_roots-Ends old_root new_root c =
      Ends->>= _ (fail_if-Ends (not (bytes_equal c.new_hash new_root)) bad_proof (λ e. cc)) (λ u h.
        Ends->>= _ (fail_if-Ends (not (bytes_equal c.old_hash old_root)) inconsistency (λ e. cc))
          (λ u' h'. fail_if-Ends (ltb 0 (length c.proof)) proof_too_long (λ e. cc)))

  verify_sizes-Ends :
      (old_size new_size : ℕ) (old_root new_root : Uint256) (proof : List Uint256)
      → old_size < u32_mod
      → new_size < u32_mod
      → Ends (λ u. Unit {0}) (verify_sizes sha256 old_size new_size old_root new_root proof)
  unfolding verify_sizes
  verify_sizes-Ends old_size new_size old_root new_root proof h k =
      let n = old_size - 1 in
      let l = new_size - 1 in
      Ends->>= _ (leave_right-Ends 32 n l n l (omega arith) (omega arith) (omega arith)) (λ r nodes.
        Ends->>= _ (first_hash-Ends r.0 r.1 old_root proof) (λ c at_start.
          Ends->>= _
            (climb_old-Ends 32 l c (omega (arith, nodes.0, at_start.0))
              (omega (arith, nodes.1, at_start.1)))
            (λ c' low.
              Ends->>= _ (climb_rest-Ends 32 c' (omega (arith, low)))
                (λ c'' done. check_roots-Ends old_root new_root c''))))

  -- For tree sizes below 2 ^ 32, any roots and any proof, the loops of `VerifyConsistency` end
  -- within 33 rounds each.
  pub verify_consistency-no_fuel :
      (old_size new_size : ℕ) (old_root new_root : Uint256) (proof : List Uint256)
      → old_size < u32_mod
      → new_size < u32_mod
      → verify_consistency sha256 old_size new_size old_root new_root proof ≢ err no_fuel
  unfolding verify_consistency
  verify_consistency-no_fuel old_size new_size old_root new_root proof h k =
      Ends-no_fuel {P = λ u. Unit {0}} (elim (Bool-cases (ltb new_size old_size)) [
        | inl e ↦ rw e (fails (λ e. cc))
        | inr e ↦ rw e (elim (Bool-cases (bytes_equal old_root new_root)) [
          | inl f ↦ rw f (gives tt)
          | inr f ↦ rw f (elim (Bool-cases (old_size == 0)) [
            | inl g ↦ rw g (gives tt)
            | inr g ↦ rw g (verify_sizes-Ends old_size new_size old_root new_root proof h k)
          ])
        ])
      ])
