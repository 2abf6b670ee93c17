-- ===== src/Common/BigInt.antt =====
-- node/common/bigint.go: integers as two's complement bytes, the lowest first. A big.Int is an
-- integer; `Bytes` and `SetBytes` of math/big are the digits of its magnitude.
pub mod RoundTrip
pub mod Size
use layer.Base.{
  ℕ, zero, suc, ◌+◌, ◌-◌, ◌/◌, ◌%◌, Bool, true, false, List, [], ◌∷◌, ◌++◌, map, ltb, leb, ◌==◌,
  if◌then◌else◌,
}
use layer.Base.Int.{ℤ, pos, negsuc}
use layer.Common.Words.{le_value}

-- The digits of n to base 256, the lowest first, and no digit for zero; n rounds are enough.
unfoldable pub le_digits : ℕ → ℕ → List ℕ
le_digits zero n = []
le_digits (suc rounds) n = elim (n == 0) [
  | true ↦ []
  | false ↦ n % 256 ∷ le_digits rounds (n / 256)
]

-- `bytesReverse(data.Bytes())`
unfoldable pub little_endian : ℕ → List ℕ
little_endian n = le_digits n n

-- `^b` of a byte.
unfoldable pub complement : ℕ → ℕ
complement b = 255 - b

-- The loop that adds one: a byte 255 becomes 0 and carries.
unfoldable pub add_one : List ℕ → List ℕ
add_one [] = []
add_one (b ∷ bs) = if b == 255 then 0 ∷ add_one bs else (b + 1) ∷ bs

-- `bs[len(bs)-1]`
unfoldable pub last_byte : ℕ → List ℕ → ℕ
last_byte b [] = b
last_byte b (c ∷ bs) = last_byte c bs

-- A further byte where the highest bit has the wrong sign.
unfoldable pub sign_positive : List ℕ → List ℕ
sign_positive [] = []
sign_positive (b ∷ bs) = if leb 128 (last_byte b bs) then (b ∷ bs) ++ (0 ∷ []) else b ∷ bs

unfoldable pub sign_negative : List ℕ → List ℕ
sign_negative [] = []
sign_negative (b ∷ bs) = if ltb (last_byte b bs) 128 then (b ∷ bs) ++ (255 ∷ []) else b ∷ bs

unfoldable pub big_int_to_neo_bytes : ℤ → List ℕ
big_int_to_neo_bytes (pos n) = sign_positive (little_endian n)
big_int_to_neo_bytes (negsuc n) = sign_negative (add_one (map complement (little_endian (suc n))))

unfoldable pub big_int_from_neo_bytes : List ℕ → ℤ
big_int_from_neo_bytes [] = pos 0
big_int_from_neo_bytes (b ∷ bs) =
    if leb 128 (last_byte b bs)
    then negsuc (le_value (map complement (b ∷ bs)))
    else pos (le_value (b ∷ bs))
