-- ===== src/Vm/IntValue/Exact.antt =====
-- The short way on two int64 gives what the integers give.
use native.Mathlib.Nat.{mod-le, div-le_self, div-lt_self, div-eq_of_lt, pow-le-pow_right}
use layer.Base.{
  ℕ, zero, suc, ◌-◌, ◌/◌, ◌%◌, ◌^◌, ◌<◌, ◌≤◌, ◌≡◌, refl, sym, ap, ◌∙◌, Bool, true, false, length,
  ltb, leb, ◌==◌, if◌then◌else◌, Bool-cases, inl, inr, Outcome, ok, err, ◌↔◌, ◌⊎◌, arith,
}
use layer.Base.Int.{ℤ, pos, negsuc, to_signed}
use layer.Base.Arith.{
  magnitude, negative, with_sign, opposite, ◌+ℤ◌, ◌-ℤ◌, ◌*ℤ◌, quo, rem, shift_right,
}
use layer.Common.SafeMath.{u64_mod}
use layer.Common.Words.{le_value-lt}
use layer.Common.BigInt.{little_endian, le_digits}
use layer.Common.BigInt.RoundTrip.{le_value-le_digits, le_digits-IsByte}
use layer.Common.BigInt.Size.{length-le_digits}
use layer.Vm.IntValue.{
  IntValue, small, big, IntError, over_max_size, shift_by_neg, max_int_size, int64_limit, to_int,
  is_int64, byte_count, int_val_from_big_int, shift_amount, rsh, int_op, wrap64, mod_value,
  div_value, is_zero, Overflow, add_values, sub_values, mul_values,
}

-- The integers from -limit to limit - 1.
abbrev pub InRange : ℕ → ℤ → Type 0
InRange limit (pos n) = n < limit
InRange limit (negsuc n) = n < limit

-- From -2 ^ 63 to 2 ^ 63 - 1 where the value is small; outside of that and less than 2 ^ 256 away
-- from 0 where it is big.
unfoldable pub IsIntValue : IntValue → Type 0
IsIntValue (small z) = InRange (2 ^ 63) z
IsIntValue (big z) = (InRange (2 ^ 63) z → ⊥) × (magnitude z < 2 ^ 256)

is_int64-InRange : (z : ℤ) → (is_int64 z ≡ true) ↔ InRange (2 ^ 63) z
unfolding is_int64
is_int64-InRange (pos n) = (λ h. ground arith, λ h. ground arith)
is_int64-InRange (negsuc n) = (λ h. ground arith, λ h. ground arith)

-- 32 bytes hold what is below 2 ^ 256.
byte_count-magnitude : (z : ℤ) → (byte_count z ≤ 32) ↔ (magnitude z < 2 ^ 256)
unfolding byte_count little_endian
byte_count-magnitude z = (
  λ few.
      let m = magnitude z in
      let value = le_value-le_digits m m (omega arith) in
      let bound =
        le_value-lt (length (le_digits m m)) (le_digits m m) refl (le_digits-IsByte m m) in
      let wide : 256 ^ length (le_digits m m) ≤ 256 ^ 32 = pow-le-pow_right (omega arith) few in
      omega arith,
  λ h. length-le_digits (magnitude z) (magnitude z) 32 h,
)

-- An int64 has few bytes.
int64-byte_count : (z : ℤ) → is_int64 z ≡ true → byte_count z ≤ 8
unfolding is_int64 byte_count magnitude little_endian
int64-byte_count (pos n) h = length-le_digits n n 8 (ground arith)
int64-byte_count (negsuc n) h = length-le_digits (suc n) (suc n) 8 (ground arith)

pub int_val_from_big_int-small : (z : ℤ) → is_int64 z ≡ true → int_val_from_big_int z ≡ ok (small z)
unfolding int_val_from_big_int
int_val_from_big_int-small z h =
    let few = int64-byte_count z h in
    let fits : ltb max_int_size (byte_count z) ≡ false = ground arith in rw (fits, h) refl

-- A function on two int64 that is exact where it is fine.
int_op-exact :
    (littleint : ℤ → ℤ → ℤ × Bool) (exact : ℤ → ℤ → ℤ) (a b : IntValue)
    → ((x y : ℤ)
        → a ≡ small x
        → b ≡ small y
        → (littleint x y).1 ≡ true
        → ((littleint x y).0 ≡ exact x y) × (is_int64 (exact x y) ≡ true))
    → int_op a b littleint (λ x y. int_val_from_big_int (exact x y))
      ≡ int_val_from_big_int (exact (to_int a) (to_int b))
unfolding int_op to_int
int_op-exact littleint exact (small x) (small y) h = elim (Bool-cases (littleint x y).1) [
  | inl fine ↦
      let (same, fits) = h x y refl refl fine in
      rw (fine, same, int_val_from_big_int-small (exact x y) fits) refl
  | inr over ↦ rw over
]
int_op-exact littleint exact (small x) (big y) h = refl
int_op-exact littleint exact (big x) b h = refl

-- `Add`, `Sub` and `Mul` give what `IntValFromBigInt` makes of the exact result, whether or not
-- the two values are int64.
pub arithmetic-exact :
    (overflow : Overflow) (a b : IntValue)
    → (add_values overflow a b ≡ int_val_from_big_int (to_int a +ℤ to_int b))
      × (sub_values overflow a b ≡ int_val_from_big_int (to_int a -ℤ to_int b))
      × (mul_values overflow a b ≡ int_val_from_big_int (to_int a *ℤ to_int b))
unfolding add_values sub_values mul_values
arithmetic-exact overflow a b = (
  int_op-exact overflow.add64 ◌+ℤ◌ a b (λ x y p q fine. overflow.add64-fits x y fine),
  int_op-exact overflow.sub64 ◌-ℤ◌ a b (λ x y p q fine. overflow.sub64-fits x y fine),
  int_op-exact overflow.mul64 ◌*ℤ◌ a b (λ x y p q fine. overflow.mul64-fits x y fine),
)

wrap64-int64 : (z : ℤ) → is_int64 z ≡ true → wrap64 z ≡ z
unfolding wrap64 is_int64 to_signed
wrap64-int64 (pos n) h = ground arith
wrap64-int64 (negsuc n) h = ground arith

negative_fits : (n : ℕ) → n ≤ int64_limit → is_int64 (with_sign true n) ≡ true
unfolding is_int64 with_sign
negative_fits zero h = refl
negative_fits (suc n) h = ground arith

-- A remainder is not larger than the dividend.
rem-int64 : (a b : ℤ) → is_int64 a ≡ true → 0 < magnitude b → is_int64 (rem a b) ≡ true
unfolding rem is_int64 magnitude negative with_sign
rem-int64 (pos n) b h p = ground (arith, mod-le n (magnitude b))
rem-int64 (negsuc n) b h p =
    negative_fits (suc n % magnitude b) (ground (arith, mod-le (suc n) (magnitude b)))

-- A quotient of int64 is one, but for -2^63 by -1.
quo-int64 :
    (a b : ℤ)
    → is_int64 a ≡ true
    → 0 < magnitude b
    → (a ≡ negsuc (int64_limit - 1) → b ≡ negsuc 0 → ⊥)
    → is_int64 (quo a b) ≡ true
unfolding quo is_int64 magnitude negative with_sign opposite
quo-int64 (pos n) (pos m) h p e = ground (arith, div-le_self n m)
quo-int64 (pos n) (negsuc m) h p e =
    negative_fits (n / suc m) (ground (arith, div-le_self n (suc m)))
quo-int64 (negsuc n) (pos m) h p e =
    negative_fits (suc n / m) (ground (arith, div-le_self (suc n) m))
quo-int64 (negsuc n) (negsuc zero) h p e = elim (Bool-cases (n == int64_limit - 1)) [
  | inl least ↦ let same : n ≡ int64_limit - 1 = ground arith in absurd (e (ap negsuc same) refl)
  | inr other ↦ let whole : suc n / 1 ≡ suc n = omega arith in rw whole (ground arith)
]
quo-int64 (negsuc n) (negsuc (suc m)) h p e =
    let less_than : suc n / suc (suc m) < suc n = div-lt_self (omega arith) (omega arith) in
    ground arith

nonzero : (b : IntValue) → is_zero b ≡ false → 0 < magnitude (to_int b)
unfolding is_zero
nonzero b h = ground arith

small_int64 : (a : IntValue) (x : ℤ) → IsIntValue a → a ≡ small x → is_int64 x ≡ true
small_int64 a x v e =
    let v' : IsIntValue (small x) = rw (← e) v in (is_int64-InRange x).1 (unfold IsIntValue in v')

small_to_int : (a : IntValue) (x : ℤ) → a ≡ small x → to_int a ≡ x
unfolding to_int
small_to_int a x e = ap to_int e

-- For a value a of the machine and a b that is not zero, but for -2 ^ 63 by -1, `Div` and `Mod`
-- give what `IntValFromBigInt` makes of the quotient towards zero and of its remainder.
pub division-exact :
    (a b : IntValue)
    → IsIntValue a
    → is_zero b ≡ false
    → (to_int a ≡ negsuc (int64_limit - 1) → to_int b ≡ negsuc 0 → ⊥)
    → (div_value a b ≡ int_val_from_big_int (quo (to_int a) (to_int b)))
      × (mod_value a b ≡ int_val_from_big_int (rem (to_int a) (to_int b)))
unfolding div_value mod_value
division-exact a b v z e = (
  rw z (
      int_op-exact (λ x y. (wrap64 (quo x y), true)) quo a b
        (λ x y p q fine.
          let large : 0 < magnitude y = rw (small_to_int b y q) at (nonzero b z) in
          let fits : is_int64 (quo x y) ≡ true =
            quo-int64 x y (small_int64 a x v p) large
              (λ f g. e (small_to_int a x p ∙ f) (small_to_int b y q ∙ g)) in
          (wrap64-int64 (quo x y) fits, fits))),
  rw z (
      int_op-exact (λ x y. (rem x y, true)) rem a b
        (λ x y p q fine.
          let large : 0 < magnitude y = rw (small_to_int b y q) at (nonzero b z) in
          (refl, rem-int64 x y (small_int64 a x v p) large))),
)

-- The machine's integers are below 2 ^ 256.
magnitude-lt : (a : IntValue) → IsIntValue a → magnitude (to_int a) < 2 ^ 256
unfolding IsIntValue to_int magnitude
magnitude-lt (small (pos n)) v = omega arith
magnitude-lt (small (negsuc n)) v = omega arith
magnitude-lt (big z) v = v.1

shift_right-far :
    (z : ℤ) (n : ℕ)
    → magnitude z < 2 ^ n
    → shift_right z n ≡ (if negative z then negsuc 0 else pos 0)
unfolding shift_right magnitude negative
shift_right-far (pos m) n h = ap pos (div-eq_of_lt h)
shift_right-far (negsuc m) n h = ap negsuc (div-eq_of_lt (omega arith))

extreme :
    (below_zero : Bool)
    → ok (small (if below_zero then negsuc 0 else pos 0))
      ≡ int_val_from_big_int (if below_zero then negsuc 0 else pos 0)
unfolding is_int64
extreme true = sym (int_val_from_big_int-small (negsuc 0) refl)
extreme false = sym (int_val_from_big_int-small (pos 0) refl)

shift_amount-to_int : (b : IntValue) (n : ℕ) → shift_amount b ≡ ok n → to_int b ≡ pos n
unfolding shift_amount to_int
shift_amount-to_int (small (pos m)) n h = let e : m ≡ n = cc in ap pos e
shift_amount-to_int (small (negsuc m)) n h = cc
shift_amount-to_int (big (pos m)) n h = elim (Bool-cases (leb u64_mod m)) [
  | inl over ↦ let no : ◌≡◌ {A = Outcome IntError ℕ} (err shift_by_neg) (ok n) = rw over at h in cc
  | inr fits ↦
      let e : ◌≡◌ {A = Outcome IntError ℕ} (ok m) (ok n) = rw fits at h in
      let same : m ≡ n = cc in ap pos same
]
shift_amount-to_int (big (negsuc m)) n h = cc

-- For a value of the machine and an amount n of bits that `Rsh` accepts from its other argument,
-- however large, that argument stands for n, and `Rsh` gives what `IntValFromBigInt` makes of the
-- quotient by 2 ^ n, rounded down.
pub rsh-exact :
    (a b : IntValue) (n : ℕ)
    → IsIntValue a
    → shift_amount b ≡ ok n
    → (to_int b ≡ pos n) × (rsh a b ≡ int_val_from_big_int (shift_right (to_int a) n))
unfolding rsh
rsh-exact a b n v h = (
  shift_amount-to_int b n h,
  elim (Bool-cases (ltb 256 n)) [
    | inl far ↦
        let wide : 2 ^ 256 ≤ 2 ^ n =
          pow-le-pow_right {n = 2} (omega arith) {i = 256} {j = n} (ground arith) in
        let below : magnitude (to_int a) < 2 ^ n = omega (arith, magnitude-lt a v) in
        rw (h, far, shift_right-far (to_int a) n below) (extreme (negative (to_int a)))
    | inr near ↦ rw (h, near) refl
  ],
)

-- For an integer less than 2 ^ 256 away from 0, `IntValFromBigInt` gives a value that stands for
-- it, small from -2 ^ 63 to 2 ^ 63 - 1 and big otherwise; for any other it fails, as over the
-- size.
pub int_val_from_big_int-IsIntValue :
    (z : ℤ)
    → ((magnitude z < 2 ^ 256)
        × ((a : IntValue) × (int_val_from_big_int z ≡ ok a) × IsIntValue a × (to_int a ≡ z)))
      ⊎ ((2 ^ 256 ≤ magnitude z) × (int_val_from_big_int z ≡ err over_max_size))
unfolding int_val_from_big_int IsIntValue to_int
int_val_from_big_int-IsIntValue z = elim (Bool-cases (ltb max_int_size (byte_count z))) [
  | inl long ↦ elim (Bool-cases (ltb (magnitude z) (2 ^ 256))) [
    | inl near ↦
        let few : byte_count z ≤ 32 = (byte_count-magnitude z).1 (ground arith) in
        absurd (ground arith)
    | inr far ↦ inr (ground arith, rw long refl)
  ]
  | inr short ↦
      let near = (byte_count-magnitude z).0 (ground arith) in
      inl (
        near,
        elim (Bool-cases (is_int64 z)) [
          | inl s ↦ (small z, rw (short, s) refl, (is_int64-InRange z).0 s, refl)
          | inr s ↦
              (big z, rw (short, s) refl, (λ h. let t = (is_int64-InRange z).1 h in cc, near), refl)
        ],
      )
]
