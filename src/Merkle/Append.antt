-- ===== src/Merkle/Append.antt =====
-- Appending leaves to a compact tree: the loop of `AppendHash` adds one to the binary counter of
-- full blocks, so the tree always holds the blocks of all its leaves.
use layer.Base.{
  ℕ, zero, suc, ◌+◌, ◌-◌, ◌*◌, ◌/◌, ◌%◌, ◌^◌, ◌<◌, ◌≡◌, refl, ap, sym, ◌∙◌, true, some, List, [],
  ◌∷◌, ◌++◌, append_assoc, length, length-reverse, get_elem?, take, arith, ◌==◌,
}
use mathlib.Core.List.{reverse, reverse-append}
use native.Mathlib.Nat.{pow-suc}
use layer.Merkle.HashFull.{fold_onto-append}
use layer.Merkle.Hasher.{fold_onto, Uint256, ◌>>=◌, hash_children}
use layer.Merkle.Tree.{Carry, carry_step, carry_loop}
use layer.Merkle.Forest.{Full, Forest}

take_last :
    (xs ys : List Uint256) (n : ℕ) (h : Uint256)
    → length ys ≡ n
    → take (suc n) xs ≡ ys ++ (h ∷ [])
    → (get_elem? xs n ≡ some h) × (take n xs ≡ ys)
take_last [] [] n h l e = cc
take_last [] (y ∷ ys) n h l e = cc
take_last (x ∷ xs) [] zero h l e = (cc e, refl)
take_last (x ∷ xs) [] (suc n) h l e = absurd (omega arith)
take_last (x ∷ xs) (y ∷ ys) zero h l e = absurd (omega arith)
take_last (x ∷ xs) (y ∷ ys) (suc n) h l e =
    let (a, b) = take_last xs ys n h (omega arith) (cc e) in (a, cc (b, e))

module _ (sha256 : List ℕ → Uint256) where
  -- What the loop leaves: the hashes still in use and the carried one are the blocks of all leaves.
  -- Folding them gives what the fold gave before the loop.
  pub record Carried (k s : ℕ) (hashes ls : List Uint256) (start c : Carry) : Type 0 where
    pub roots : List Uint256
    pub forest : Forest sha256 k s roots ls
    pub kept : take c.size hashes ++ (c.leaf ∷ []) ≡ reverse roots
    pub folded :
        fold_onto sha256 (take c.size hashes) c.leaf
        ≡ fold_onto sha256 (take start.size hashes) start.leaf

  -- One turn of the loop takes the last hash in use.
  carry_step-last :
      (hashes ys : List Uint256) (h : Uint256) (c : Carry)
      → c.size ≡ suc (length ys)
      → take c.size hashes ≡ ys ++ (h ∷ [])
      → (c' : Carry) × (carry_step sha256 hashes c ≡ some c')
        × (c'.leaf ≡ hash_children sha256 h c.leaf)
        × (c'.size ≡ length ys)
        × (take c'.size hashes ≡ ys)
  unfolding carry_step
  carry_step-last hashes ys h c size kept =
      let (at, front) = take_last hashes ys (length ys) h refl (rw size at kept) in
      let below : suc (length ys) - 1 ≡ length ys = omega arith in
      (
        record {
          mintree_h = c.mintree_h + 1;
          leaf = hash_children sha256 h c.leaf;
          stored = c.stored ++ (hash_children sha256 h c.leaf ∷ []);
          size = length ys;
        },
        rw (size, below, at) (ground arith),
        refl,
        refl,
        front,
      )

  carry_loop_odd :
      (fuel : ℕ) (hashes : List Uint256) (s : ℕ) (c : Carry)
      → (s % 2 == 1) ≡ true
      → carry_loop sha256 (suc fuel) hashes s c
        ≡ (carry_step sha256 hashes c >>= carry_loop sha256 fuel hashes (s / 2))
  unfolding carry_loop
  carry_loop_odd fuel hashes s c e = ground arith

  carry_loop_turn :
      (fuel : ℕ) (hashes : List Uint256) (s s' : ℕ) (c c' : Carry)
      → s ≡ 2 * s' + 1
      → carry_step sha256 hashes c ≡ some c'
      → carry_loop sha256 (suc fuel) hashes s c ≡ carry_loop sha256 fuel hashes s' c'
  carry_loop_turn fuel hashes s s' c c' e step =
      let half : s / 2 ≡ s' = omega arith in
      carry_loop_odd fuel hashes s c (ground arith) ∙ rw (step, half)

  carry_loop_stop :
      (fuel : ℕ) (hashes : List Uint256) (s s' : ℕ) (c : Carry)
      → s ≡ 2 * s'
      → carry_loop sha256 (suc fuel) hashes s c ≡ some c
  unfolding carry_loop
  carry_loop_stop fuel hashes s s' c e = let bit : s % 2 ≡ 0 = omega arith in rw (bit, carry_loop)

  pub carry_loop-Carried :
      {k s : ℕ} {hs ls blk : List Uint256} (fuel : ℕ) (hashes : List Uint256) (c : Carry)
      → Forest sha256 k s hs ls
      → s < 2 ^ fuel
      → Full sha256 k blk c.leaf
      → take c.size hashes ≡ reverse hs
      → c.size ≡ length hs
      → (c' : Carry) × (carry_loop sha256 (suc fuel) hashes s c ≡ some c')
        × Carried k (s + 1) hashes (ls ++ blk) c c'
  carry_loop-Carried {k} {s} {blk = blk} fuel hashes c (Forest.done e f g) bits full kept size = (
    c,
    carry_loop_stop fuel hashes s 0 c (omega arith),
    record {
      roots = c.leaf ∷ [];
      forest = rw g (Forest.odd {s' = 0} (omega arith) refl refl full (Forest.done refl refl refl));
      kept = rw (kept, f);
      folded = refl;
    },
  )
  carry_loop-Carried {k} {s} {hs = hs} fuel hashes c (Forest.even {s' = s'} e p t) bits full kept
        size =
      (
        c,
        carry_loop_stop fuel hashes s s' c e,
        record {
          roots = c.leaf ∷ hs;
          forest = Forest.odd (omega arith) refl refl full t;
          kept = rw (kept, reverse-append (c.leaf ∷ []) hs);
          folded = refl;
        },
      )
  carry_loop-Carried zero hashes c (Forest.odd e f g x t) bits full kept size = absurd (omega arith)
  carry_loop-Carried {k} {s} {blk = blk} (suc fuel) hashes c
        (Forest.odd {s' = s'} {hs' = hs'} {front = front} {blk = last} {h = h} e f g x t) bits full
        kept size =
      let last_kept : take c.size hashes ≡ reverse hs' ++ (h ∷ []) =
        kept ∙ rw f (reverse-append (h ∷ []) hs') in
      let (c1, step, leaf, size1, kept1) =
        carry_step-last hashes (reverse hs') h c (omega (arith, ap length f, length-reverse hs'))
          last_kept in
      let full1 : Full sha256 (suc k) (last ++ blk) c1.leaf = Full.node refl refl leaf x full in
      let (c', run, carried) =
        carry_loop-Carried fuel hashes c1 t (omega (arith, pow-suc 2 fuel)) full1 kept1
          (size1 ∙ length-reverse hs') in
      (
        c',
        carry_loop_turn (suc fuel) hashes s s' c c1 e step ∙ run,
        record {
          roots = carried.roots;
          forest =
              rw (g, append_assoc front last blk)
                (Forest.even {s' = s' + 1} (omega arith) (omega arith) carried.forest);
          kept = carried.kept;
          folded =
              carried.folded
              ∙ (ap (λ l. fold_onto sha256 (take c1.size hashes) l) leaf
                  ∙ rw (kept1, last_kept)
                      (sym (fold_onto-append sha256 [] (reverse hs') h c.leaf)));
        },
      )
