-- ===== src/Vm/IntValue.antt =====
-- node/vm/neovm/types/int_value.go: the integers of the machine, an int64 where the value fits and a
-- big.Int elsewhere. Rsh and Lsh take the amount from another integer. The bitwise operations of two
-- values are left out.
pub mod Exact
use layer.Base.{
  ℕ, zero, suc, ◌+◌, ◌-◌, ◌%◌, ◌<◌, ◌≡◌, Bool, true, false, List, length, ltb, leb, ◌==◌,
  if◌then◌else◌, Outcome, ok, err, ◌>>=◌, ◌>>◌, fail_if,
}
use layer.Base.Int.{ℤ, pos, negsuc, to_signed, to_unsigned}
use layer.Base.Arith.{
  magnitude, negative, ◌+ℤ◌, ◌-ℤ◌, ◌*ℤ◌, negate, quo, rem, less, complement_ℤ, shift_left,
  shift_right,
}
use layer.Common.SafeMath.{u64_mod}
use layer.Common.BigInt.{little_endian, big_int_to_neo_bytes, big_int_from_neo_bytes}

-- The int64, where `isbig` is not set, and the big.Int, where it is.
pub data IntValue : Type 0 where
  small : ℤ → IntValue
  big : ℤ → IntValue

pub data IntError : Type 0 where
  shift_by_neg over_max_size div_mod_by_zero : IntError

abbrev pub max_int_size : ℕ
max_int_size = 32

abbrev pub int64_limit : ℕ
int64_limit = 0x8000_0000_0000_0000

unfoldable pub to_int : IntValue → ℤ
to_int (small z) = z
to_int (big z) = z

-- `IsInt64` of math/big.
unfoldable pub is_int64 : ℤ → Bool
is_int64 (pos n) = ltb n int64_limit
is_int64 (negsuc n) = ltb n int64_limit

-- `len(val.Bytes())`
unfoldable pub byte_count : ℤ → ℕ
byte_count z = length (little_endian (magnitude z))

-- `val` is an integer, so the test for nil is left out, and so is the value beside an error.
unfoldable pub int_val_from_big_int : ℤ → Outcome IntError IntValue
int_val_from_big_int val =
    fail_if (ltb max_int_size (byte_count val)) over_max_size
    >> ok (if is_int64 val then small val else big val)

unfoldable pub int_val_from_neo_bytes : List ℕ → Outcome IntError IntValue
int_val_from_neo_bytes val = int_val_from_big_int (big_int_from_neo_bytes val)

unfoldable pub to_neo_bytes : IntValue → List ℕ
to_neo_bytes self = big_int_to_neo_bytes (to_int self)

unfoldable pub is_zero : IntValue → Bool
is_zero self = magnitude (to_int self) == 0

-- The amount of a shift: an int64 that is not negative, or a big.Int that is a uint64.
unfoldable pub shift_amount : IntValue → Outcome IntError ℕ
shift_amount (small (pos n)) = ok n
shift_amount (small (negsuc n)) = err shift_by_neg
shift_amount (big (pos n)) = fail_if (leb u64_mod n) shift_by_neg >> ok n
shift_amount (big (negsuc n)) = err shift_by_neg

unfoldable pub rsh : IntValue → IntValue → Outcome IntError IntValue
rsh self other = shift_amount other >>= λ val.
    if ltb 256 val
    then ok (small (if negative (to_int self) then negsuc 0 else pos 0))
    else int_val_from_big_int (shift_right (to_int self) val)

unfoldable pub lsh : IntValue → IntValue → Outcome IntError IntValue
lsh self other = shift_amount other >>= λ val.
    if ltb 256 val then err over_max_size else int_val_from_big_int (shift_left (to_int self) val)

-- `intOp`: on two int64 the first function, and the second where that is not ok.
unfoldable pub int_op :
    IntValue
    → IntValue
    → (ℤ → ℤ → ℤ × Bool)
    → (ℤ → ℤ → Outcome IntError IntValue)
    → Outcome IntError IntValue
int_op (small a) (small b) littleint bigint =
    let (val, fine) = littleint a b in if fine then ok (small val) else bigint a b
int_op (small a) (big b) littleint bigint = bigint a b
int_op (big a) other littleint bigint = bigint a (to_int other)

-- An int64 result, wrapped around.
unfoldable pub wrap64 : ℤ → ℤ
wrap64 (pos n) = to_signed u64_mod (n % u64_mod)
wrap64 (negsuc n) = to_signed u64_mod (u64_mod - 1 - n % u64_mod)

unfoldable pub max_value : IntValue → IntValue → Outcome IntError IntValue
max_value self other =
    int_op self other (λ a b. (if less a b then b else a, true))
      (λ a b. int_val_from_big_int (if less b a then a else b))

unfoldable pub min_value : IntValue → IntValue → Outcome IntError IntValue
min_value self other =
    int_op self other (λ a b. (if less a b then a else b, true))
      (λ a b. int_val_from_big_int (if less b a then b else a))

unfoldable pub complement_value : IntValue → IntValue
complement_value (small z) = small (complement_ℤ z)
complement_value (big z) = big (complement_ℤ z)

unfoldable pub abs_value : IntValue → IntValue
abs_value (big z) = big (pos (magnitude z))
abs_value (small (pos n)) = small (pos n)
abs_value (small (negsuc n)) =
    if suc n == int64_limit then big (pos (suc n)) else small (pos (suc n))

unfoldable pub mod_value : IntValue → IntValue → Outcome IntError IntValue
mod_value self other =
    fail_if (is_zero other) div_mod_by_zero
    >> int_op self other (λ a b. (rem a b, true)) (λ a b. int_val_from_big_int (rem a b))

unfoldable pub div_value : IntValue → IntValue → Outcome IntError IntValue
div_value self other =
    fail_if (is_zero other) div_mod_by_zero
    >> int_op self other (λ a b. (wrap64 (quo a b), true)) (λ a b. int_val_from_big_int (quo a b))

-- Add64, Sub64 and Mul64 of the package overflow: a result and whether it did not overflow.
pub record Overflow : Type 0 where
  pub add64 : ℤ → ℤ → ℤ × Bool
  pub sub64 : ℤ → ℤ → ℤ × Bool
  pub mul64 : ℤ → ℤ → ℤ × Bool
  pub add64-fits :
      (a b : ℤ) → (add64 a b).1 ≡ true → ((add64 a b).0 ≡ a +ℤ b) × (is_int64 (a +ℤ b) ≡ true)
  pub sub64-fits :
      (a b : ℤ) → (sub64 a b).1 ≡ true → ((sub64 a b).0 ≡ a -ℤ b) × (is_int64 (a -ℤ b) ≡ true)
  pub mul64-fits :
      (a b : ℤ) → (mul64 a b).1 ≡ true → ((mul64 a b).0 ≡ a *ℤ b) × (is_int64 (a *ℤ b) ≡ true)

module _ (overflow : Overflow) where
  unfoldable pub mul_values : IntValue → IntValue → Outcome IntError IntValue
  mul_values self other = int_op self other overflow.mul64 (λ a b. int_val_from_big_int (a *ℤ b))

  unfoldable pub add_values : IntValue → IntValue → Outcome IntError IntValue
  add_values self other = int_op self other overflow.add64 (λ a b. int_val_from_big_int (a +ℤ b))

  unfoldable pub sub_values : IntValue → IntValue → Outcome IntError IntValue
  sub_values self other = int_op self other overflow.sub64 (λ a b. int_val_from_big_int (a -ℤ b))
