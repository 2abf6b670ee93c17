-- ===== src/Validator/Increment/Window.antt =====
-- After consecutive blocks the validator knows the last ones.
use layer.Base.{
  ℕ, zero, suc, ◌+◌, ◌-◌, ◌%◌, ◌<◌, ◌≤◌, ◌≡◌, refl, sym, ap, ◌∙◌, true, false, List, [], ◌∷◌, ◌++◌,
  length, length-append, length-drop, drop, append_assoc, append-nil, ltb, leb, ◌==◌, if◌then◌else◌,
  Bool-cases, inl, inr, err, fail_if, arith,
}
use layer.Validator.Increment.{
  IncrementValidator, u32_mod, start_too_low, duplicated, start_at, drop_oldest, append_block,
  block_range, add_block, in_blocks, verify,
}

-- Blocks are added one after the other, the first at the height.
unfoldable pub add_chain : IncrementValidator → ℕ → List (List (List ℕ)) → IncrementValidator
add_chain self height [] = self
add_chain self height (b ∷ bs) = add_chain (add_block self height b) (height + 1) bs

-- The validator that has the last of the blocks `seen`, of which the first is at `h`.
known : ℕ → ℕ → List (List (List ℕ)) → IncrementValidator
known limit h seen = record {
  blocks = drop (length seen - limit) seen;
  base_height = h + (length seen - limit);
  max_blocks = limit;
}

drop-nil : {A : Type 0} (n : ℕ) → drop {A = A} n [] ≡ []
drop-nil zero = refl
drop-nil (suc n) = refl

drop-drop : {A : Type 0} (i j : ℕ) (xs : List A) → drop i (drop j xs) ≡ drop (j + i) xs
drop-drop i zero xs = let same : 0 + i ≡ i = omega arith in rw same
drop-drop i (suc j) [] = drop-nil i ∙ sym (drop-nil (suc j + i))
drop-drop i (suc j) (x ∷ xs) =
    let next : suc j + i ≡ suc (j + i) = omega arith in rw next (drop-drop i j xs)

drop-snoc :
    {A : Type 0} (n : ℕ) (xs : List A) (x : A)
    → n ≤ length xs
    → drop n (xs ++ (x ∷ [])) ≡ drop n xs ++ (x ∷ [])
drop-snoc zero xs x h = refl
drop-snoc (suc n) [] x h = absurd (omega arith)
drop-snoc (suc n) (y ∷ xs) x h = drop-snoc n xs x (omega arith)

module _ (limit h : ℕ) (positive : 0 < limit) where
  drop_oldest-known :
      (seen : List (List (List ℕ)))
      → h + length seen < u32_mod
      → drop_oldest (known limit h seen) ≡ record {
        blocks = drop (suc (length seen) - limit) seen;
        base_height = h + (suc (length seen) - limit);
        max_blocks = limit;
      }
  unfolding drop_oldest known
  drop_oldest-known seen u =
      let n = length seen in
      let size = length-drop (n - limit) seen in
      elim (Bool-cases (leb limit (length (drop (n - limit) seen)))) [
        | inl full ↦
            let step : suc n - limit ≡ n - limit + 1 = ground arith in
            let base : (h + (n - limit) + 1) % u32_mod ≡ h + (n - limit + 1) = omega arith in
            rw (full, step, base, drop-drop 1 (n - limit) seen) refl
        | inr room ↦ let step : suc n - limit ≡ n - limit = ground arith in rw (room, step) refl
      ]

  start_at-known :
      (seen : List (List (List ℕ))) (height : ℕ)
      → 0 < length seen
      → start_at (known limit h seen) height ≡ known limit h seen
  unfolding start_at known
  start_at-known seen height p =
      let size = length-drop (length seen - limit) seen in
      let kept : (length (drop (length seen - limit) seen) == 0) ≡ false = ground arith in rw kept

  block_range-known :
      (seen : List (List (List ℕ)))
      → h + length seen < u32_mod
      → (block_range (known limit h seen)).1 ≡ h + length seen
  unfolding block_range known
  block_range-known seen u = omega (arith, length-drop (length seen - limit) seen)

  append_block-known :
      (seen : List (List (List ℕ))) (b : List (List ℕ))
      → h + length seen < u32_mod
      → append_block (drop_oldest (known limit h seen)) b ≡ known limit h (seen ++ (b ∷ []))
  unfolding append_block known
  append_block-known seen b u =
      let n = length seen in
      let size : length (seen ++ (b ∷ [])) ≡ suc n = omega (arith, length-append seen (b ∷ [])) in
      ap (λ v. append_block v b) (drop_oldest-known seen u)
      ∙ rw (size, drop-snoc (suc n - limit) seen b (omega arith)) refl

  add_block-known :
      (seen : List (List (List ℕ))) (b : List (List ℕ))
      → 0 < length seen
      → h + length seen < u32_mod
      → add_block (known limit h seen) (h + length seen) b ≡ known limit h (seen ++ (b ∷ []))
  unfolding add_block
  add_block-known seen b p u =
      let same : (h + length seen == h + length seen) ≡ true = ground arith in
      rw (start_at-known seen (h + length seen) p, block_range-known seen u, same)
        (append_block-known seen b u)

  -- The first block, on a validator without blocks.
  add_block-first :
      (base : ℕ) (b : List (List ℕ))
      → h < u32_mod
      → add_block (record { blocks = []; base_height = base; max_blocks = limit }) h b
        ≡ known limit h (b ∷ [])
  unfolding add_block start_at block_range drop_oldest append_block known
  add_block-first base b u =
      let same : ((h + 0 % u32_mod) % u32_mod == h) ≡ true = ground arith in
      let room : leb limit 0 ≡ false = ground arith in
      let none_over : 1 - limit ≡ 0 = omega arith in
      let base_same : h + 0 ≡ h = omega arith in rw (same, room, none_over, base_same) refl

  add_chain-known :
      (seen bs : List (List (List ℕ)))
      → 0 < length seen
      → h + length seen + length bs ≤ u32_mod
      → add_chain (known limit h seen) (h + length seen) bs ≡ known limit h (seen ++ bs)
  unfolding add_chain
  add_chain-known seen [] p u = rw (append-nil seen)
  add_chain-known seen (b ∷ bs) p u =
      let size : length (seen ++ (b ∷ [])) ≡ length seen + 1 =
        omega (arith, length-append seen (b ∷ [])) in
      let ih = add_chain-known (seen ++ (b ∷ [])) bs (omega arith) (omega arith) in
      let height : h + length (seen ++ (b ∷ [])) ≡ h + length seen + 1 = omega arith in
      ap (λ v. add_chain v (h + length seen + 1) bs) (add_block-known seen b p (omega arith))
      ∙ (rw (height, append_assoc seen (b ∷ []) bs) at ih)

verify-known :
    (limit h : ℕ) (seen : List (List (List ℕ))) (hash : List ℕ) (start_height : ℕ)
    → verify (known limit h seen) hash start_height ≡ (
        if ltb start_height (h + (length seen - limit))
        then err start_too_low
        else fail_if (in_blocks hash (drop (start_height - h) seen)) duplicated)
unfolding verify known
verify-known limit h seen hash start_height =
    let past = length seen - limit in
    elim (Bool-cases (ltb start_height (h + past))) [
      | inl low ↦ rw low
      | inr fine ↦
          let place : past + (start_height - (h + past)) ≡ start_height - h = ground arith in
          rw (fine, drop-drop (start_height - (h + past)) past seen, place) refl
    ]

-- On a validator without blocks and with a positive limit, after blocks of consecutive heights
-- from h on that are below 2 ^ 32, `Verify` refuses a height below the last blocks within the
-- limit, and otherwise refuses exactly the transactions that a block from the height on holds.
pub verify-add_chain :
    (self : IncrementValidator) (h : ℕ) (b : List (List ℕ)) (bs : List (List (List ℕ)))
    (hash : List ℕ) (start_height : ℕ)
    → 0 < self.max_blocks
    → self.blocks ≡ []
    → h + length (b ∷ bs) ≤ u32_mod
    → verify (add_chain self h (b ∷ bs)) hash start_height ≡ (
        if ltb start_height (h + (length (b ∷ bs) - self.max_blocks))
        then err start_too_low
        else fail_if (in_blocks hash (drop (start_height - h) (b ∷ bs))) duplicated)
unfolding add_chain
verify-add_chain self h b bs hash start_height positive empty u =
    let limit = self.max_blocks in
    let first : add_block self h b ≡ known limit h (b ∷ []) =
      (let cleared : self
            ≡ record { blocks = []; base_height = self.base_height; max_blocks = limit } =
          λ i. record self { blocks = empty i } in
        ap (λ v. add_block v h b) cleared
        ∙ add_block-first limit h positive self.base_height b (omega arith)) in
    let chain : add_chain (add_block self h b) (h + 1) bs ≡ known limit h (b ∷ bs) =
      ap (λ v. add_chain v (h + 1) bs) first
      ∙ add_chain-known limit h positive (b ∷ []) bs (omega arith) (omega arith) in
    ap (λ v. verify v hash start_height) chain ∙ verify-known limit h (b ∷ bs) hash start_height
