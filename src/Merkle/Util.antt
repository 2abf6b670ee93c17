-- ===== src/Merkle/Util.antt =====
-- node/merkle/util.go: bit counting on uint32. Each loop takes fuel: a uint32 has 32 bits, so 33
-- rounds are enough.
use layer.Base.{
  ℕ, zero, suc, ◌+◌, ◌-◌, ◌/◌, ◌%◌, ◌^◌, ◌≤◌, ◌<◌, ◌≡◌, Bool, true, false, arith, ◌==◌,
}
use Prim.Native.Nat.{bit_and}
use native.Mathlib.Nat.{pow-suc}

abbrev pub u32_mod : ℕ
u32_mod = 0x1_0000_0000

-- for num != 0 { num &= num - 1; count += 1 }
unfoldable pub count_bit_loop : ℕ → ℕ → ℕ → ℕ
count_bit_loop zero num count = count
count_bit_loop (suc fuel) num count = elim (num == 0) [
  | true ↦ count
  | false ↦ count_bit_loop fuel (bit_and num (num - 1)) (count + 1)
]

unfoldable pub count_bit : ℕ → ℕ
count_bit num = count_bit_loop 33 num 0

unfoldable pub is_power2 : ℕ → Bool
is_power2 num = count_bit num == 1

-- for num != 0 { num >>= 1; hiBit += 1 }
unfoldable pub high_bit_loop : ℕ → ℕ → ℕ → ℕ
high_bit_loop zero num hi = hi
high_bit_loop (suc fuel) num hi = elim (num == 0) [
  | true ↦ hi
  | false ↦ high_bit_loop fuel (num / 2) (hi + 1)
]

unfoldable pub high_bit : ℕ → ℕ
high_bit num = high_bit_loop 33 num 0

-- `num & -num` on uint32.
unfoldable pub low_bit : ℕ → ℕ
low_bit num = high_bit (bit_and num ((u32_mod - num) % u32_mod))

high_bit_loop-eq :
    (fuel k num hi : ℕ)
    → k < fuel
    → 2 ^ k ≤ num
    → num < 2 ^ suc k
    → high_bit_loop fuel num hi ≡ hi + suc k
unfolding high_bit_loop
high_bit_loop-eq zero k num hi h lo up = absurd (omega arith)
high_bit_loop-eq (suc zero) zero num hi h lo up = ground arith
high_bit_loop-eq (suc zero) (suc k) num hi h lo up = absurd (omega arith)
high_bit_loop-eq (suc (suc fuel)) zero num hi h lo up = ground arith
high_bit_loop-eq (suc (suc fuel)) (suc k) num hi h lo up = ground (
  arith,
  pow-suc 2 k,
  pow-suc 2 (suc k),
  high_bit_loop-eq (suc fuel) k (num / 2) (hi + 1) (omega arith) (omega (arith, pow-suc 2 k))
      (omega (arith, pow-suc 2 k, pow-suc 2 (suc k))),
)

-- The highest bit of a number between 2 ^ k and 2 ^ (k + 1) is the bit k + 1, counted from 1.
pub high_bit-eq : (k num : ℕ) → k < 32 → 2 ^ k ≤ num → num < 2 ^ suc k → high_bit num ≡ suc k
unfolding high_bit
high_bit-eq k num h lo up = omega (arith, high_bit_loop-eq 33 k num 0 (omega arith) lo up)
