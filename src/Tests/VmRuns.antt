-- ===== src/Tests/VmRuns.antt =====
-- A stack of three numbers.
use layer.Base.{ℕ, ◌≡◌, arith, [], ◌∷◌, ◌++◌, take, drop, ok}
use layer.Base.Int.{pos}
use layer.Vm.ValueStack.{ValueStack, insert, peek, remove}
use layer.Vm.ValueStack.Top.{top_first, insert-top_first}

abbrev three : ValueStack ℕ
three = record { items = 7 ∷ 8 ∷ 9 ∷ []; limit = 4 }

insert-top_first_run :
    (self' : ValueStack ℕ) × (insert three (pos 2) 5 ≡ ok self')
    × (top_first self' ≡ take 2 (top_first three) ++ (5 ∷ drop 2 (top_first three)))
    × (peek self' (pos 2) ≡ ok 5)
    × (remove self' (pos 2) ≡ ok (5, three))
insert-top_first_run = insert-top_first three 2 5 (omega arith) (omega arith)
