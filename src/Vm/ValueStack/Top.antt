-- ===== src/Vm/ValueStack/Top.antt =====
-- The stack from its top.
use mathlib.Core.List.{reverse, reverse-append}
use mathlib.Core.Path.{subst}
use layer.Base.{
  ℕ, zero, suc, ◌-◌, ◌<◌, ◌≤◌, ◌≡◌, refl, sym, ap, ◌∙◌, false, List, [], ◌∷◌, ◌++◌, append_assoc,
  length, length-append, length-reverse, length-drop, take, drop, take-append-drop,
  take-append_left, drop-append_left, get_elem?-append_right, leb, ok, arith,
}
use layer.Base.Int.{pos}
use layer.Vm.ValueStack.{ValueStack, index_below, store, move_up, insert, element, peek, remove}

module _ {V : Type 0} where
  -- The top first.
  unfoldable pub top_first : ValueStack V → List V
  top_first self = reverse self.items

  -- What the stores of `Insert` come to between two parts.
  insert_between :
      (a b : List V) (t : V) (k : ℕ)
      → length a ≡ k
      → store k t (move_up k ((a ++ b) ++ (t ∷ []))) ≡ a ++ (t ∷ b)
  unfolding store move_up
  insert_between [] [] t k h = rw (← h) refl
  insert_between [] (y ∷ b) t k h =
      let front : take (suc (length (b ++ (t ∷ []))) - 1) (y ∷ (b ++ (t ∷ []))) ≡ y ∷ b =
        take-append_left (suc (length (b ++ (t ∷ []))) - 1) (y ∷ b) (t ∷ [])
          (omega (arith, length-append b (t ∷ []))) in
      rw (← h) (ap (λ (l : List V). t ∷ l) front)
  insert_between (x ∷ a) b t zero h = absurd (omega arith)
  insert_between (x ∷ a) b t (suc k) h =
      let rest = insert_between a b t k (omega arith) in
      let d = (a ++ b) ++ (t ∷ []) in
      let less : suc (length d) - suc (suc k) ≡ length d - suc k = omega arith in
      rw less (ap (λ (l : List V). x ∷ l) rest)

  -- A stack of two parts, the lower first.
  abbrev parts : ℕ → List V → List V → ValueStack V
  parts limit a b = record { items = a ++ b; limit = limit }

  insert-parts :
      (limit : ℕ) (a b : List V) (t : V)
      → length (a ++ b) < limit
      → insert (parts limit a b) (pos (length b)) t ≡ ok (parts limit a (t ∷ b))
  unfolding insert index_below
  insert-parts limit a b t room =
      let sizes = length-append a b in
      let free : leb limit (length (a ++ b)) ≡ false = ground arith in
      let within : leb (suc (length (a ++ b))) (length b) ≡ false = ground arith in
      rw (free, within, insert_between a b t (length (a ++ b) - length b) (omega arith))

  peek-parts :
      (limit : ℕ) (a b : List V) (t : V) → peek (parts limit a (t ∷ b)) (pos (length b)) ≡ ok t
  unfolding peek index_below element
  peek-parts limit a b t =
      let sizes = length-append a (t ∷ b) in
      let l = length (a ++ (t ∷ b)) in
      let within : leb l (length b) ≡ false = ground arith in
      rw (within, get_elem?-append_right a (t ∷ b) (l - length b - 1) 0 (omega arith))

  remove-parts :
      (limit : ℕ) (a b : List V) (t : V)
      → remove (parts limit a (t ∷ b)) (pos (length b)) ≡ ok (t, parts limit a b)
  unfolding remove index_below element
  remove-parts limit a b t =
      let sizes = length-append a (t ∷ b) in
      let l = length (a ++ (t ∷ b)) in
      let within : leb l (length b) ≡ false = ground arith in
      let whole : a ++ (t ∷ b) ≡ (a ++ (t ∷ [])) ++ b = sym (append_assoc a (t ∷ []) b) in
      let behind : drop (l - length b) (a ++ (t ∷ b)) ≡ b =
        ap (drop (l - length b)) whole
        ∙ drop-append_left (l - length b) (a ++ (t ∷ [])) b
            (omega (arith, length-append a (t ∷ []))) in
      rw (
        within,
        get_elem?-append_right a (t ∷ b) (l - length b - 1) 0 (omega arith),
        take-append_left (l - length b - 1) a (t ∷ b) (omega arith),
        behind,
      )

  top_first-parts :
      (limit : ℕ) (a b : List V) (t : V)
      → top_first (parts limit a (t ∷ b))
        ≡ take (length b) (top_first (parts limit a b))
          ++ (t ∷ drop (length b) (top_first (parts limit a b)))
  unfolding top_first
  top_first-parts limit a b t =
      let size = length-reverse b in
      rw (
        reverse-append a (t ∷ b),
        reverse-append a b,
        take-append_left (length b) (reverse b) (reverse a) size,
        drop-append_left (length b) (reverse b) (reverse a) size,
        reverse-append (t ∷ []) b,
        append_assoc (reverse b) (t ∷ []) (reverse a),
      )

  -- What `Insert`, `Peek` and `Remove` do at one place of a stack.
  record AtPlace (self : ValueStack V) (i : ℕ) (t : V) (self' : ValueStack V) : Type 0 where
    inserted : insert self (pos i) t ≡ ok self'
    above : top_first self' ≡ take i (top_first self) ++ (t ∷ drop i (top_first self))
    peeked : peek self' (pos i) ≡ ok t
    removed : remove self' (pos i) ≡ ok (t, self)

  at_parts :
      (limit : ℕ) (a b : List V) (t : V)
      → length (a ++ b) < limit
      → AtPlace (parts limit a b) (length b) t (parts limit a (t ∷ b))
  at_parts limit a b t room = record {
    inserted = insert-parts limit a b t room;
    above = top_first-parts limit a b t;
    peeked = peek-parts limit a b t;
    removed = remove-parts limit a b t;
  }

  -- On a stack below its limit, `Insert` at an index up to the number of its values succeeds and
  -- puts the value behind that many values from the top; `Peek` at the index then gives the
  -- value, and `Remove` there gives it and the stack as it was.
  pub insert-top_first :
      (self : ValueStack V) (i : ℕ) (t : V)
      → length self.items < self.limit
      → i ≤ length self.items
      → (self' : ValueStack V) × (insert self (pos i) t ≡ ok self')
        × (top_first self' ≡ take i (top_first self) ++ (t ∷ drop i (top_first self)))
        × (peek self' (pos i) ≡ ok t)
        × (remove self' (pos i) ≡ ok (t, self))
  insert-top_first self i t room h =
      let k = length self.items - i in
      let a = take k self.items in
      let b = drop k self.items in
      let size : length b ≡ i = omega (arith, length-drop k self.items) in
      let whole : parts self.limit a b ≡ self =
        λ j. record { items = take-append-drop k self.items j; limit = self.limit } in
      let fits : length (a ++ b) < self.limit = rw (take-append-drop k self.items) room in
      let at : AtPlace self i t (parts self.limit a (t ∷ b)) =
        subst (λ (n : ℕ). AtPlace self n t (parts self.limit a (t ∷ b))) size
          (subst (λ (w : ValueStack V). AtPlace w (length b) t (parts self.limit a (t ∷ b))) whole
            (at_parts self.limit a b t fits)) in
      (parts self.limit a (t ∷ b), at.inserted, at.above, at.peeked, at.removed)
