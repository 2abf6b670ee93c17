-- ===== src/Tests/IncrementRuns.antt =====
-- A validator that keeps two blocks, behind three.
use layer.Base.{
  ℕ, ◌+◌, ◌-◌, ◌≡◌, refl, List, [], ◌∷◌, length, drop, ltb, if◌then◌else◌, err, fail_if, arith,
}
use layer.Validator.Increment.{IncrementValidator, start_too_low, duplicated, in_blocks, verify}
use layer.Validator.Increment.Window.{add_chain, verify-add_chain}

abbrev two_blocks : IncrementValidator
two_blocks = record { blocks = []; base_height = 0; max_blocks = 2 }

abbrev later_blocks : List (List (List ℕ))
later_blocks = ((2 ∷ []) ∷ []) ∷ ((3 ∷ []) ∷ (4 ∷ []) ∷ []) ∷ []

verify-add_chain_example :
    verify (add_chain two_blocks 10 (((1 ∷ []) ∷ []) ∷ later_blocks)) (3 ∷ []) 11 ≡ (
      if ltb 11 (10 + (length (((1 ∷ []) ∷ []) ∷ later_blocks) - 2))
      then err start_too_low
      else fail_if
          (in_blocks (3 ∷ []) (drop (11 - 10) (((1 ∷ []) ∷ []) ∷ later_blocks)))
          duplicated)
verify-add_chain_example =
    verify-add_chain two_blocks 10 ((1 ∷ []) ∷ []) later_blocks (3 ∷ []) 11 (omega arith) refl
      (omega arith)
