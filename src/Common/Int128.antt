-- ===== src/Common/Int128.antt =====
-- node/common/int128.go: 128-bit integers as sixteen bytes, the lowest first. Copying the reversed
-- `Bytes` of a big.Int into a zero array gives the little-endian word of its magnitude.
use native.Mathlib.Nat.{pow-suc, mul_assoc, mul_comm}
use layer.Base.{
  ℕ, suc, ◌+◌, ◌-◌, ◌*◌, ◌^◌, ◌<◌, ◌≡◌, refl, ap, ◌∙◌, List, [], ◌∷◌, ◌++◌, length, length-append,
  replicate, leb, ltb, true, false, Outcome, ok, ◌>>◌, fail_if, arith,
}
use layer.Base.Int.{ℤ, pos, negsuc, to_signed, to_unsigned}
use layer.Common.SafeMath.{u64_mod}
use layer.Common.Words.{le_bytes, le_value, length-le_bytes, le_value-le_bytes}

abbrev pub u128_mod : ℕ
u128_mod = 0x1_0000_0000_0000_0000_0000_0000_0000_0000

abbrev pub i128_limit : ℕ
i128_limit = 0x8000_0000_0000_0000_0000_0000_0000_0000

-- What is left of the int64 `z` above its eight bytes: `oneBits128`, or zeros.
unfoldable pub sign_bytes : ℤ → List ℕ
sign_bytes (pos n) = replicate 8 0
sign_bytes (negsuc n) = replicate 8 255

unfoldable pub i128_from_int64 : ℤ → List ℕ
i128_from_int64 z = le_bytes 8 (to_unsigned u64_mod z) ++ sign_bytes z

pub data Int128Error : Type 0 where
  out_of_range : Int128Error

unfoldable pub i128_from_big_int : ℤ → Outcome Int128Error (List ℕ)
i128_from_big_int (pos n) = fail_if (leb i128_limit n) out_of_range >> ok (le_bytes 16 n)
i128_from_big_int (negsuc n) =
    fail_if (leb i128_limit n) out_of_range >> ok (le_bytes 16 (u128_mod - suc n))

unfoldable pub to_big_int : List ℕ → ℤ
to_big_int i128 = to_signed u128_mod (le_value i128)

-- An int64, and an integer that fits in 128 bits.
abbrev pub IsInt64 : ℤ → Type 0
IsInt64 (pos n) = n < 0x8000_0000_0000_0000
IsInt64 (negsuc n) = n < 0x8000_0000_0000_0000

abbrev pub IsInt128 : ℤ → Type 0
IsInt128 (pos n) = n < i128_limit
IsInt128 (negsuc n) = n < i128_limit

le_value-append :
    (xs ys : List ℕ) → le_value (xs ++ ys) ≡ le_value xs + 256 ^ length xs * le_value ys
unfolding le_value
le_value-append [] ys = omega arith
le_value-append (x ∷ xs) ys =
    let p : ℕ = 256 ^ length xs in
    let more : 256 ^ suc (length xs) * le_value ys ≡ 256 * (p * le_value ys) =
      rw (pow-suc 256 (length xs), mul_comm (256 ^ length xs) 256)
        (mul_assoc 256 p (le_value ys)) in
    omega (arith, le_value-append xs ys)

pub i128_from_big_int-ok :
    (z : ℤ)
    → IsInt128 z
    → (i : List ℕ) × (i128_from_big_int z ≡ ok i) × (length i ≡ 16) × (to_big_int i ≡ z)
unfolding i128_from_big_int to_big_int to_signed
i128_from_big_int-ok (pos n) h =
    let small : leb i128_limit n ≡ false = ground arith in
    let value : le_value (le_bytes 16 n) ≡ n = le_value-le_bytes 16 n (omega arith) in
    let positive : ltb (n + n) u128_mod ≡ true = ground arith in
    (le_bytes 16 n, rw small, length-le_bytes 16 n, rw (value, positive))
i128_from_big_int-ok (negsuc n) h =
    let small : leb i128_limit n ≡ false = ground arith in
    let u : ℕ = u128_mod - suc n in
    let value : le_value (le_bytes 16 u) ≡ u = le_value-le_bytes 16 u (omega arith) in
    let negative : ltb (u + u) u128_mod ≡ false = ground arith in
    let back : u128_mod - 1 - u ≡ n = omega arith in
    (le_bytes 16 u, rw small, length-le_bytes 16 u, rw (value, negative, back))

-- The value of the eight bytes of a word in front of eight more.
le_value-high :
    (v : ℕ) (bs : List ℕ) → v < u64_mod → le_value (le_bytes 8 v ++ bs) ≡ v + u64_mod * le_value bs
le_value-high v bs h =
    let size : 256 ^ length (le_bytes 8 v) ≡ u64_mod =
      ap (λ (k : ℕ). 256 ^ k) (length-le_bytes 8 v) in
    le_value-append (le_bytes 8 v) bs ∙ (rw (size, le_value-le_bytes 8 v (omega arith)) refl)

length-high : (v : ℕ) (bs : List ℕ) → length bs ≡ 8 → length (le_bytes 8 v ++ bs) ≡ 16
length-high v bs h = omega (arith, length-append (le_bytes 8 v) bs, length-le_bytes 8 v)

le_value-zeros : le_value (replicate 8 0) ≡ 0
unfolding le_value
le_value-zeros = refl

le_value-ones : le_value (replicate 8 255) ≡ u64_mod - 1
unfolding le_value
le_value-ones = refl

pub to_big_int-i128_from_int64 :
    (z : ℤ) → IsInt64 z → (length (i128_from_int64 z) ≡ 16) × (to_big_int (i128_from_int64 z) ≡ z)
unfolding i128_from_int64 to_big_int sign_bytes to_signed to_unsigned
to_big_int-i128_from_int64 (pos n) h =
    let value : le_value (le_bytes 8 n ++ replicate 8 0) ≡ n =
      omega (arith, le_value-high n (replicate 8 0) (omega arith), le_value-zeros) in
    let positive : ltb (n + n) u128_mod ≡ true = ground arith in
    (length-high n (replicate 8 0) refl, rw (value, positive))
to_big_int-i128_from_int64 (negsuc n) h =
    let v : ℕ = u64_mod - 1 - n in
    let u : ℕ = u128_mod - 1 - n in
    let value : le_value (le_bytes 8 v ++ replicate 8 255) ≡ u =
      omega (arith, le_value-high v (replicate 8 255) (omega arith), le_value-ones) in
    let negative : ltb (u + u) u128_mod ≡ false = ground arith in
    let back : u128_mod - 1 - u ≡ n = omega arith in
    (length-high v (replicate 8 255) refl, rw (value, negative, back))
