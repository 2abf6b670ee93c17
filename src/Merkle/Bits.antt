-- ===== src/Merkle/Bits.antt =====
-- `countBit` of node/merkle/util.go counts the ones of a number: clearing the lowest one by
-- `num & (num-1)` takes away exactly one of them.
use layer.Base.{
  ℕ, zero, suc, ◌+◌, ◌-◌, ◌*◌, ◌/◌, ◌%◌, ◌^◌, ◌≤◌, ◌<◌, ◌≡◌, refl, ap, ◌∙◌, min, arith, ◌==◌,
  if◌then◌else◌, List, length, ◌⊎◌, inl, inr,
}
use Prim.Native.Nat.{bit_and, digits, bit_and-bitwise}
use native.Mathlib.Nat.{pow-suc}
use layer.Merkle.Util.{count_bit, count_bit_loop}
use layer.Merkle.Hasher.{Uint256}
use layer.Merkle.Forest.{Forest}

-- The ones among the `b` lowest bits.
abbrev pub ones : ℕ → ℕ → ℕ
ones zero n = 0
ones (suc b) n = n % 2 + ones b (n / 2)

-- `n` below 2 ^ f, without its lowest one.
abbrev clear : ℕ → ℕ → ℕ
clear zero n = 0
clear (suc f) n = if n % 2 == 1 then n - 1 else 2 * clear f (n / 2)

abbrev ands : ℕ → ℕ → ℕ → ℕ
ands f a b = digits (λ rest. 0) min f a b

parity : (n : ℕ) → (n % 2 ≡ 0) ⊎ (n % 2 ≡ 1)
parity n = omega arith

ands_self : (f a : ℕ) → a ≤ f → ands f a a ≡ a
ands_self zero zero h = refl
ands_self zero (suc a) h = absurd (omega arith)
ands_self (suc f) zero h = refl
ands_self (suc f) (suc a) h = omega (arith, ands_self f (suc a / 2) (omega arith))

ands-clear : (f a : ℕ) → suc a ≤ f → ands f (suc a) a ≡ clear f (suc a)
ands-clear zero a h = absurd (omega arith)
ands-clear (suc f) a h = elim (parity a) [
  | inl odd ↦
      let same : suc a / 2 ≡ a / 2 = omega arith in
      rw same (ground (arith, ands_self f (a / 2) (omega arith)))
  | inr even ↦
      let pred : suc a / 2 ≡ suc (a / 2) = omega arith in
      rw pred (ground (arith, ands-clear f (a / 2) (omega arith)))
]

bit_and-clear : (a : ℕ) → 0 < a → bit_and a (a - 1) ≡ clear a a
bit_and-clear zero h = absurd (omega arith)
bit_and-clear (suc a) h =
    let below : suc a - 1 ≡ a = omega arith in
    ap (bit_and (suc a)) below ∙ (bit_and-bitwise (suc a) a ∙ ands-clear (suc a) a (omega arith))

ones-zero : (b : ℕ) → ones b 0 ≡ 0
ones-zero zero = refl
ones-zero (suc b) = omega (arith, ones-zero b)

ones-le : (b n : ℕ) → ones b n ≤ b
ones-le zero n = omega arith
ones-le (suc b) n = omega (arith, ones-le b (n / 2))

clear-lt : (f n : ℕ) → 0 < n → clear f n < n
clear-lt zero n h = h
clear-lt (suc f) n h = ground (arith, clear-lt f (n / 2))

ones-clear : (f b n : ℕ) → 0 < n → n ≤ f → n < 2 ^ b → ones b n ≡ suc (ones b (clear f n))
ones-clear zero b n h le lt = absurd (omega arith)
ones-clear (suc f) zero n h le lt = absurd (omega arith)
ones-clear (suc f) (suc b) n h le lt = elim (parity n) [
  | inl even ↦
      let c = clear f (n / 2) in
      let half : (2 * c) / 2 ≡ c = omega arith in
      let ih = ones-clear f b (n / 2) (omega arith) (omega arith) (omega (arith, pow-suc 2 b)) in
      rw even (rw half (omega (arith, ih)))
  | inr odd ↦ let half : (n - 1) / 2 ≡ n / 2 = omega arith in rw odd (rw half (omega arith))
]

count_bit_loop_turn :
    (fuel n count : ℕ)
    → count_bit_loop (suc fuel) (suc n) count
      ≡ count_bit_loop fuel (bit_and (suc n) (suc n - 1)) (count + 1)
unfolding count_bit_loop
count_bit_loop_turn fuel n count = ground arith

count_bit_loop-ones :
    (fuel b n count : ℕ)
    → n < 2 ^ b
    → ones b n < fuel
    → count_bit_loop fuel n count ≡ count + ones b n
unfolding count_bit_loop
count_bit_loop-ones zero b n count lt h = absurd (omega arith)
count_bit_loop-ones (suc fuel) b zero count lt h = omega (arith, ones-zero b)
count_bit_loop-ones (suc fuel) b (suc n) count lt h =
    let less = ones-clear (suc n) b (suc n) (omega arith) (omega arith) lt in
    let small = clear-lt (suc n) (suc n) (omega arith) in
    let rest =
      count_bit_loop-ones fuel b (clear (suc n) (suc n)) (count + 1) (omega arith) (omega arith) in
    count_bit_loop_turn fuel n count
    ∙ ap (λ m. count_bit_loop fuel m (count + 1)) (bit_and-clear (suc n) (omega arith))
    ∙ rest
    ∙ omega (arith, less)

-- For a number below 2 ^ 32, `countBit` gives the number of its ones.
pub count_bit-ones : (n : ℕ) → n < 2 ^ 32 → count_bit n ≡ ones 32 n
unfolding count_bit
count_bit-ones n h = omega (arith, count_bit_loop-ones 33 32 n 0 h (omega (arith, ones-le 32 n)))

-- A forest has a root for each one of its number of blocks.
pub Forest-ones :
    (sha256 : List ℕ → Uint256) {k s : ℕ} {hs ls : List Uint256} (b : ℕ)
    → Forest sha256 k s hs ls
    → s < 2 ^ b
    → length hs ≡ ones b s
Forest-ones sha256 b (Forest.done e f g) h = rw (e, f) (omega (arith, ones-zero b))
Forest-ones sha256 zero (Forest.even e p t) h = absurd (omega arith)
Forest-ones sha256 {s = s} (suc b) (Forest.even {s' = s'} e p t) h =
    let half : s / 2 ≡ s' = omega arith in
    rw half (omega (arith, Forest-ones sha256 b t (omega (arith, pow-suc 2 b))))
Forest-ones sha256 zero (Forest.odd e f g x t) h = absurd (omega arith)
Forest-ones sha256 {s = s} (suc b) (Forest.odd {s' = s'} e f g x t) h =
    let half : s / 2 ≡ s' = omega arith in
    rw half (rw f (omega (arith, Forest-ones sha256 b t (omega (arith, pow-suc 2 b)))))
