-- ===== src/Base/Arith.antt =====
-- Operations on the integers: those of math/big and, where the result fits, of Go's int64.
use Prim.Native.Nat.{ℕ, zero, suc, ◌+◌, ◌-◌, ◌*◌, ◌/◌, ◌%◌, ◌^◌}
use mathlib.Core.Bool.{Bool, true, false, not}
use layer.Base.{ltb, leb, if◌then◌else◌}
use layer.Base.Int.{ℤ, pos, negsuc}

unfoldable pub magnitude : ℤ → ℕ
magnitude (pos n) = n
magnitude (negsuc n) = suc n

unfoldable pub negative : ℤ → Bool
negative (pos n) = false
negative (negsuc n) = true

-- The number of a sign and a magnitude.
unfoldable pub with_sign : Bool → ℕ → ℤ
with_sign false n = pos n
with_sign true zero = pos zero
with_sign true (suc n) = negsuc n

unfoldable pub opposite : Bool → Bool → Bool
opposite false b = b
opposite true b = not b

-- a - b
unfoldable pub sub_ℕ : ℕ → ℕ → ℤ
sub_ℕ a b = if leb b a then pos (a - b) else negsuc (b - a - 1)

infixl 65 ◌+ℤ◌ ◌-ℤ◌
infixl 70 ◌*ℤ◌
unfoldable pub ◌+ℤ◌ : ℤ → ℤ → ℤ
pos a +ℤ pos b = pos (a + b)
pos a +ℤ negsuc b = sub_ℕ a (suc b)
negsuc a +ℤ pos b = sub_ℕ b (suc a)
negsuc a +ℤ negsuc b = negsuc (suc (a + b))

unfoldable pub negate : ℤ → ℤ
negate z = with_sign (not (negative z)) (magnitude z)

unfoldable pub ◌-ℤ◌ : ℤ → ℤ → ℤ
a -ℤ b = a +ℤ negate b

unfoldable pub ◌*ℤ◌ : ℤ → ℤ → ℤ
a *ℤ b = with_sign (opposite (negative a) (negative b)) (magnitude a * magnitude b)

-- Division towards zero: `Quo` and `Rem`.
unfoldable pub quo : ℤ → ℤ → ℤ
quo a b = with_sign (opposite (negative a) (negative b)) (magnitude a / magnitude b)

unfoldable pub rem : ℤ → ℤ → ℤ
rem a b = with_sign (negative a) (magnitude a % magnitude b)

unfoldable pub less : ℤ → ℤ → Bool
less (pos a) (pos b) = ltb a b
less (pos a) (negsuc b) = false
less (negsuc a) (pos b) = true
less (negsuc a) (negsuc b) = ltb b a

-- All bits turned over.
unfoldable pub complement_ℤ : ℤ → ℤ
complement_ℤ (pos n) = negsuc n
complement_ℤ (negsuc n) = pos n

unfoldable pub shift_left : ℤ → ℕ → ℤ
shift_left z k = with_sign (negative z) (magnitude z * 2 ^ k)

-- The quotient by 2 ^ k, rounded down.
unfoldable pub shift_right : ℤ → ℕ → ℤ
shift_right (pos n) k = pos (n / 2 ^ k)
shift_right (negsuc n) k = negsuc (n / 2 ^ k)
