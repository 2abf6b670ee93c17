-- ===== src/Common/BigInt/RoundTrip.antt =====
-- An integer is read back from its bytes.
use layer.Base.{
  ℕ, zero, suc, ◌+◌, ◌-◌, ◌*◌, ◌/◌, ◌^◌, ◌<◌, ◌≤◌, ◌≡◌, refl, ap, ◌∙◌, true, false, List, [], ◌∷◌,
  ◌++◌, map, length, All, ltb, leb, ◌==◌, arith, Bool-cases, inl, inr,
}
use native.Mathlib.Nat.{pow-suc}
use layer.Base.Int.{ℤ, pos, negsuc}
use layer.Common.Words.{le_value, IsByte}
use layer.Common.BigInt.{
  le_digits, little_endian, complement, add_one, last_byte, sign_positive, sign_negative,
  big_int_to_neo_bytes, big_int_from_neo_bytes,
}

pub le_value-le_digits : (r n : ℕ) → n ≤ r → le_value (le_digits r n) ≡ n
unfolding le_digits le_value
le_value-le_digits zero n h = omega arith
le_value-le_digits (suc r) n h = elim (Bool-cases (n == 0)) [
  | inl e ↦ rw (e, le_digits) (ground arith)
  | inr e ↦ rw (e, le_digits) (ground (arith, le_value-le_digits r (n / 256)))
]

pub le_digits-IsByte : (r n : ℕ) → All IsByte (le_digits r n)
unfolding le_digits
le_digits-IsByte zero n = tt
le_digits-IsByte (suc r) n = elim (Bool-cases (n == 0)) [
  | inl e ↦ rw (e, le_digits) tt
  | inr e ↦ rw (e, le_digits) (omega arith, le_digits-IsByte r (n / 256))
]

complement-IsByte : (bs : List ℕ) → All IsByte (map complement bs)
unfolding complement
complement-IsByte [] = tt
complement-IsByte (b ∷ bs) = (omega arith, complement-IsByte bs)

-- The values of a byte string and of its complement make up 256 ^ length - 1.
le_value-complement :
    (bs : List ℕ) → All IsByte bs → le_value (map complement bs) + le_value bs + 1 ≡ 256 ^ length bs
unfolding complement le_value
le_value-complement [] all = refl
le_value-complement (b ∷ bs) (h, all) =
    omega (arith, le_value-complement bs all, pow-suc 256 (length bs))

le_value-append : (bs : List ℕ) → le_value (bs ++ (0 ∷ [])) ≡ le_value bs
unfolding le_value
le_value-append [] = refl
le_value-append (b ∷ bs) = ap (λ (t : ℕ). b + 256 * t) (le_value-append bs)

complement-append :
    (bs : List ℕ) → map complement (bs ++ (255 ∷ [])) ≡ map complement bs ++ (0 ∷ [])
unfolding complement
complement-append [] = refl
complement-append (b ∷ bs) = ap (λ (t : List ℕ). complement b ∷ t) (complement-append bs)

last_byte-append : (b c : ℕ) (bs : List ℕ) → last_byte b (bs ++ (c ∷ [])) ≡ c
unfolding last_byte
last_byte-append b c [] = refl
last_byte-append b c (d ∷ bs) = last_byte-append d c bs

complement-complement : (bs : List ℕ) → All IsByte bs → map complement (map complement bs) ≡ bs
unfolding complement
complement-complement [] all = refl
complement-complement (b ∷ bs) (h, all) =
    let here : 255 - (255 - b) ≡ b = omega arith in rw (here, complement-complement bs all)

-- Adding one to a byte string that is not all 255.
le_value-add_one :
    (bs : List ℕ)
    → All IsByte bs
    → le_value bs + 1 < 256 ^ length bs
    → le_value (add_one bs) ≡ le_value bs + 1
unfolding add_one le_value
le_value-add_one [] all h = absurd (omega arith)
le_value-add_one (b ∷ bs) (hb, all) h = elim (Bool-cases (b == 255)) [
  | inl e ↦
      rw (e, add_one)
        (ground (arith, le_value-add_one bs all (ground (arith, pow-suc 256 (length bs)))))
  | inr e ↦ rw (e, add_one) (omega arith)
]

add_one-IsByte : (bs : List ℕ) → All IsByte bs → All IsByte (add_one bs)
unfolding add_one
add_one-IsByte [] all = tt
add_one-IsByte (b ∷ bs) (hb, all) = elim (Bool-cases (b == 255)) [
  | inl e ↦ rw (e, add_one) (omega arith, add_one-IsByte bs all)
  | inr e ↦ rw (e, add_one) (ground arith, all)
]

length-add_one : (bs : List ℕ) → length (add_one bs) ≡ length bs
unfolding add_one
length-add_one [] = refl
length-add_one (b ∷ bs) = elim (Bool-cases (b == 255)) [
  | inl e ↦ rw (e, add_one) (ap suc (length-add_one bs))
  | inr e ↦ rw (e, add_one) refl
]

-- What the reader makes of a byte string whose highest bit is known.
from_neo_bytes-false :
    (b : ℕ) (bs : List ℕ)
    → leb 128 (last_byte b bs) ≡ false
    → big_int_from_neo_bytes (b ∷ bs) ≡ pos (le_value (b ∷ bs))
unfolding big_int_from_neo_bytes
from_neo_bytes-false b bs e = rw (e, big_int_from_neo_bytes) refl

from_neo_bytes-true :
    (b : ℕ) (bs : List ℕ)
    → leb 128 (last_byte b bs) ≡ true
    → big_int_from_neo_bytes (b ∷ bs) ≡ negsuc (le_value (map complement (b ∷ bs)))
unfolding big_int_from_neo_bytes
from_neo_bytes-true b bs e = rw (e, big_int_from_neo_bytes) refl

positive_lem : (bs : List ℕ) → big_int_from_neo_bytes (sign_positive bs) ≡ pos (le_value bs)
unfolding sign_positive big_int_from_neo_bytes le_value
positive_lem [] = refl
positive_lem (b ∷ bs) = elim (Bool-cases (leb 128 (last_byte b bs))) [
  | inl e ↦
      rw (e, sign_positive)
        (from_neo_bytes-false b (bs ++ (0 ∷ [])) (ap (leb 128) (last_byte-append b 0 bs))
          ∙ ap pos (le_value-append (b ∷ bs)))
  | inr e ↦ rw (e, sign_positive) (from_neo_bytes-false b bs e)
]

negative_lem :
    (b : ℕ) (bs : List ℕ)
    → big_int_from_neo_bytes (sign_negative (b ∷ bs)) ≡ negsuc (le_value (map complement (b ∷ bs)))
unfolding sign_negative
negative_lem b bs = elim (Bool-cases (ltb (last_byte b bs) 128)) [
  | inl e ↦
      rw (e, sign_negative)
        (from_neo_bytes-true b (bs ++ (255 ∷ [])) (ap (leb 128) (last_byte-append b 255 bs))
          ∙ ap negsuc (
              ap le_value (complement-append (b ∷ bs)) ∙ le_value-append (map complement (b ∷ bs))))
  | inr e ↦ rw (e, sign_negative) (from_neo_bytes-true b bs (ground arith))
]

negative_digits :
    (bs : List ℕ)
    → 0 < length bs
    → big_int_from_neo_bytes (sign_negative bs) ≡ negsuc (le_value (map complement bs))
negative_digits [] h = absurd (omega arith)
negative_digits (b ∷ bs) h = negative_lem b bs

length-complement : (bs : List ℕ) → length (map complement bs) ≡ length bs
length-complement [] = refl
length-complement (b ∷ bs) = ap suc (length-complement bs)

-- The two's complement of a magnitude suc n has n as the value of its complement.
le_value-negated :
    (n : ℕ) (bs : List ℕ)
    → All IsByte bs
    → le_value bs ≡ suc n
    → le_value (map complement (add_one (map complement bs))) ≡ n
le_value-negated n bs all h =
    let whole = le_value-complement bs all in
    let same : 256 ^ length (map complement bs) ≡ 256 ^ length bs =
      ap (λ (k : ℕ). 256 ^ k) (length-complement bs) in
    let added = le_value-add_one (map complement bs) (complement-IsByte bs) (omega arith) in
    let back =
      le_value-complement (add_one (map complement bs))
        (add_one-IsByte (map complement bs) (complement-IsByte bs)) in
    let again : 256 ^ length (add_one (map complement bs)) ≡ 256 ^ length bs =
      ap (λ (k : ℕ). 256 ^ k) (length-add_one (map complement bs)) ∙ same in
    omega arith

length-positive : (bs : List ℕ) (n : ℕ) → le_value bs ≡ suc n → 0 < length bs
unfolding le_value
length-positive [] n h = absurd (omega arith)
length-positive (b ∷ bs) n h = omega arith

-- `BigIntFromNeoBytes` reads every integer back from the bytes that `BigIntToNeoBytes` writes.
pub big_int_from_neo_bytes-big_int_to_neo_bytes :
    (z : ℤ) → big_int_from_neo_bytes (big_int_to_neo_bytes z) ≡ z
unfolding big_int_to_neo_bytes little_endian
big_int_from_neo_bytes-big_int_to_neo_bytes (pos n) =
    positive_lem (le_digits n n) ∙ ap pos (le_value-le_digits n n (omega arith))
big_int_from_neo_bytes-big_int_to_neo_bytes (negsuc n) =
    let value = le_value-le_digits (suc n) (suc n) (omega arith) in
    let digits = le_digits (suc n) (suc n) in
    let long : 0 < length (add_one (map complement digits)) =
      rw (length-add_one (map complement digits), length-complement digits)
        (length-positive digits n value) in
    negative_digits (add_one (map complement digits)) long
    ∙ ap negsuc (le_value-negated n digits (le_digits-IsByte (suc n) (suc n)) value)
