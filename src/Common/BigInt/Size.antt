-- ===== src/Common/BigInt/Size.antt =====
-- How many bytes an integer takes.
use layer.Base.{
  ℕ, zero, suc, ◌/◌, ◌^◌, ◌<◌, ◌≤◌, List, [], ◌∷◌, length, length-append, ◌==◌, arith, Bool-cases,
  inl, inr,
}
use native.Mathlib.Nat.{pow-suc}
use layer.Base.Int.{pos}
use layer.Common.BigInt.{le_digits, little_endian, sign_positive, big_int_to_neo_bytes}

more_digits :
    (n k len : ℕ) → n < 256 ^ k → 0 < n → ((j : ℕ) → n / 256 < 256 ^ j → len ≤ j) → suc len ≤ k
more_digits n zero len h p rest = absurd (omega arith)
more_digits n (suc k) len h p rest = omega (arith, rest k (omega (arith, pow-suc 256 k)))

pub length-le_digits : (r n k : ℕ) → n < 256 ^ k → length (le_digits r n) ≤ k
unfolding le_digits
length-le_digits zero n k h = omega arith
length-le_digits (suc r) n k h = elim (Bool-cases (n == 0)) [
  | inl e ↦ rw (e, le_digits) (omega arith)
  | inr e ↦
      rw (e, le_digits)
        (more_digits n k (length (le_digits r (n / 256))) h (ground arith)
          (λ j. length-le_digits r (n / 256) j))
]

length-sign_positive : (bs : List ℕ) → length (sign_positive bs) ≤ suc (length bs)
unfolding sign_positive
length-sign_positive [] = omega arith
length-sign_positive (b ∷ bs) = ground (arith, length-append (b ∷ bs) (0 ∷ []))

-- A number of k bytes takes at most one byte more.
pub length-big_int_to_neo_bytes :
    (n k : ℕ) → n < 256 ^ k → length (big_int_to_neo_bytes (pos n)) ≤ suc k
unfolding big_int_to_neo_bytes little_endian
length-big_int_to_neo_bytes n k h =
    omega (arith, length-sign_positive (le_digits n n), length-le_digits n n k h)
