-- ===== src/Validator/Increment.antt =====
-- node/validator/increment/increment.go: which transactions the last blocks hold. A block is its
-- height and the hashes of its transactions; the mutex is left out.
pub mod Window
use layer.Base.{
  ℕ, ◌+◌, ◌-◌, ◌%◌, Bool, true, false, not, ◌||◌, List, [], ◌∷◌, ◌++◌, length, drop, ltb, leb, ◌==◌,
  if◌then◌else◌, bytes_equal, Outcome, ok, err, ◌>>=◌, ◌>>◌, fail_if,
}
use layer.Base.Int.{ℤ, pos, negsuc}

abbrev pub u32_mod : ℕ
u32_mod = 0x1_0000_0000

pub record IncrementValidator : Type 0 where
  pub blocks : List (List (List ℕ))
  pub base_height : ℕ
  pub max_blocks : ℕ

pub data IncrementError : Type 0 where
  start_too_low duplicated : IncrementError

unfoldable pub limit_of : ℤ → ℕ
limit_of (pos n) = if n == 0 then 20 else n
limit_of (negsuc n) = 20

unfoldable pub new_increment_validator : ℤ → IncrementValidator
new_increment_validator max_blocks = record {
  blocks = [];
  base_height = 0;
  max_blocks = limit_of max_blocks;
}

unfoldable pub clean : IncrementValidator → IncrementValidator
clean self = record self { blocks = []; base_height = 0 }

unfoldable pub block_range : IncrementValidator → ℕ × ℕ
block_range self = (self.base_height, (self.base_height + length self.blocks % u32_mod) % u32_mod)

-- `if len(self.blocks) == 0 { self.baseHeight = block.Header.Height }`
unfoldable pub start_at : IncrementValidator → ℕ → IncrementValidator
start_at self height =
    if length self.blocks == 0 then record self { base_height = height } else self

unfoldable pub drop_oldest : IncrementValidator → IncrementValidator
drop_oldest self =
    if leb self.max_blocks (length self.blocks)
    then record self { blocks = drop 1 self.blocks; base_height = (self.base_height + 1) % u32_mod }
    else self

unfoldable pub append_block : IncrementValidator → List (List ℕ) → IncrementValidator
append_block self hashes = record self { blocks = self.blocks ++ (hashes ∷ []) }

unfoldable pub add_block : IncrementValidator → ℕ → List (List ℕ) → IncrementValidator
add_block self height hashes =
    let started = start_at self height in
    if not ((block_range started).1 == height)
    then started
    else append_block (drop_oldest started) hashes

-- Is the hash among those of a block, or of one of the blocks?
unfoldable pub in_block : List ℕ → List (List ℕ) → Bool
in_block hash [] = false
in_block hash (h ∷ hashes) = bytes_equal h hash || in_block hash hashes

unfoldable pub in_blocks : List ℕ → List (List (List ℕ)) → Bool
in_blocks hash [] = false
in_blocks hash (b ∷ blocks) = in_block hash b || in_blocks hash blocks

unfoldable pub verify : IncrementValidator → List ℕ → ℕ → Outcome IncrementError (Unit {0})
verify self hash start_height =
    fail_if (ltb start_height self.base_height) start_too_low
    >> fail_if (in_blocks hash (drop (start_height - self.base_height) self.blocks)) duplicated
