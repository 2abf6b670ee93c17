-- ===== src/Base/Int.antt =====
-- Signed integers over the native numbers, and the two's complement reading of a w-bit word.
use layer.Base.{ℕ, ◌+◌, ◌-◌, ◌<◌, ◌≡◌, arith, ltb, if◌then◌else◌}

-- `negsuc n` is -(n + 1).
pub data ℤ : Type 0 where
  pos : ℕ → ℤ
  negsuc : ℕ → ℤ

-- `int64(v)` for a uint64 `v`, and likewise for the other widths, given by `m` = 2 ^ w.
unfoldable pub to_signed : ℕ → ℕ → ℤ
to_signed m v = if ltb (v + v) m then pos v else negsuc (m - 1 - v)

-- `uint64(z)` for an int64 `z`, and likewise for the other widths.
unfoldable pub to_unsigned : ℕ → ℤ → ℕ
to_unsigned m (pos n) = n
to_unsigned m (negsuc n) = m - 1 - n

pub to_unsigned-to_signed : (m v : ℕ) → v < m → to_unsigned m (to_signed m v) ≡ v
unfolding to_unsigned to_signed
to_unsigned-to_signed m v h = ground arith
