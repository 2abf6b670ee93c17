-- ===== src/Common/SafeMath.antt =====
-- node/common/safeMath.go: uint64 arithmetic with an overflow flag.
use layer.Base.{ℕ, ◌+◌, ◌-◌, ◌*◌, ◌/◌, ◌%◌, Bool, false, ◌||◌, ltb, ◌==◌, if◌then◌else◌}

abbrev pub u64_mod : ℕ
u64_mod = 0x1_0000_0000_0000_0000

abbrev pub max_uint64 : ℕ
max_uint64 = 0xffff_ffff_ffff_ffff

unfoldable pub safe_sub : ℕ → ℕ → ℕ × Bool
safe_sub x y = ((x + u64_mod - y) % u64_mod, ltb x y)

unfoldable pub safe_add : ℕ → ℕ → ℕ × Bool
safe_add x y = ((x + y) % u64_mod, ltb (max_uint64 - x) y)

unfoldable pub safe_mul : ℕ → ℕ → ℕ × Bool
safe_mul x y =
    if (x == 0) || (y == 0) then (0, false) else ((x * y) % u64_mod, ltb (max_uint64 / x) y)
