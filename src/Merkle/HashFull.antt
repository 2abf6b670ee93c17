-- ===== src/Merkle/HashFull.antt =====
-- `_hash_full` finds the blocks of a forest by splitting from the top, while the tree collects them
-- leaf by leaf: both have the same hashes, and the root is the fold of them.
use layer.Base.{
  ◌⊎◌, ℕ, zero, suc, ◌+◌, ◌-◌, ◌*◌, ◌%◌, ◌^◌, ◌≤◌, ◌<◌, ◌≡◌, refl, ap, ◌∙◌, some, List, [], ◌∷◌,
  ◌++◌, append_assoc, length, length-append, get_elem?, get_elem?-append_left,
  get_elem?-append_right, arith,
}
use mathlib.Core.Option.{some-injective}
use mathlib.Core.List.{reverse, reverse-append}
use native.Mathlib.Nat.{pow-suc, one-le-pow, pow-le-pow_right, mod-eq_of_lt}
use native.Mathlib.Decide.{dec_lt}
use layer.Merkle.Util.{u32_mod, high_bit, high_bit-eq}
use layer.Merkle.Hasher.{
  Uint256, hash_children, fold_onto, fold_last, hash_fold, join_full, split_width, hash_full,
}
use layer.Merkle.Forest.{Full, Forest, Full-length}

-- The leaves from `l` on begin with `mid`.
abbrev pub At : List Uint256 → ℕ → List Uint256 → Type 0
At leaves l mid = (i : ℕ) → i < length mid → get_elem? leaves (l + i) ≡ get_elem? mid i

At-left :
    (leaves : List Uint256) (l : ℕ) (a b : List Uint256) → At leaves l (a ++ b) → At leaves l a
At-left leaves l a b h i p = h i (omega (arith, length-append a b)) ∙ get_elem?-append_left a b i p

At-right :
    (leaves : List Uint256) (l m : ℕ) (a b : List Uint256)
    → m ≡ l + length a
    → At leaves l (a ++ b)
    → At leaves m b
At-right leaves l m a b e h i p =
    let same : m + i ≡ l + (length a + i) = omega arith in
    rw same (
      h (length a + i) (omega (arith, length-append a b))
      ∙ get_elem?-append_right a b (length a + i) i refl)

bits-lt : (k : ℕ) → 2 ^ k < u32_mod → k < 32
bits-lt k h = elim (dec_lt k 32) [
  | yes p ↦ p
  | no p ↦
      let big : 2 ^ 32 ≤ 2 ^ k = pow-le-pow_right (omega arith) {i = 32} (omega arith) in
      absurd (omega arith)
]

-- A width between 2 ^ k and 2 ^ (k + 1) is split at 2 ^ k.
split_width-eq : (k w : ℕ) → 2 ^ k < w → w ≤ 2 ^ suc k → w < u32_mod → split_width w ≡ 2 ^ k
unfolding split_width
split_width-eq k w lo up fits =
    let hb : high_bit (w - 1) ≡ suc k =
      high_bit-eq k (w - 1) (bits-lt k (omega arith)) (omega arith) (omega arith) in
    let e : high_bit (w - 1) - 1 ≡ k = omega (arith, hb) in rw e (mod-eq_of_lt (omega arith))

module _ (sha256 : List ℕ → Uint256) (leaves : List Uint256) where
  -- With enough fuel the range from l to r has the result `res`.
  abbrev RunsTo : ℕ → ℕ → ℕ → Uint256 × List Uint256 → Type 0
  RunsTo need l r res = (fuel : ℕ) → need ≤ fuel → hash_full sha256 fuel leaves l r ≡ some res

  join-RunsTo :
      (need k l w : ℕ) (x y : Uint256) (ys : List Uint256)
      → 2 ^ k < w
      → w ≤ 2 ^ suc k
      → l + w < u32_mod
      → RunsTo need l (l + 2 ^ k) (x, x ∷ [])
      → RunsTo need (l + 2 ^ k) (l + w) (y, ys)
      → RunsTo (suc need) l (l + w) (join_full sha256 w (2 ^ k) (x, x ∷ []) (y, ys))
  unfolding hash_full
  join-RunsTo need k l w x y ys lo up fits left right zero h = absurd (omega arith)
  join-RunsTo need k l w x y ys lo up fits left right (suc fuel) h =
      let pos : 1 ≤ 2 ^ k = one-le-pow k 2 (omega arith) in
      let width : (l + w + u32_mod - l) % u32_mod ≡ w = omega arith in
      let mid : (l + 2 ^ k) % u32_mod ≡ l + 2 ^ k = mod-eq_of_lt (omega arith) in
      rw
        (
          width,
          split_width-eq k w lo up (omega arith),
          mid,
          left fuel (omega arith),
          right fuel (omega arith),
        )
        (ground arith)

  join_full-full :
      (w k : ℕ) (x y : Uint256) (xs ys : List Uint256)
      → w ≡ 2 ^ suc k
      → w < u32_mod
      → join_full sha256 w (2 ^ k) (x, xs) (y, ys)
        ≡ (hash_children sha256 x y, hash_children sha256 x y ∷ [])
  unfolding join_full
  join_full-full w k x y xs ys e fits =
      let test : (2 ^ k * 2) % u32_mod ≡ w = omega (arith, pow-suc 2 k) in rw test (ground arith)

  join_full-part :
      (w k : ℕ) (x y : Uint256) (xs ys : List Uint256)
      → w < 2 ^ suc k
      → 2 ^ k < w
      → w < u32_mod
      → join_full sha256 w (2 ^ k) (x, xs) (y, ys) ≡ (hash_children sha256 x y, xs ++ ys)
  unfolding join_full
  join_full-part w k x y xs ys less more fits = ground (arith, pow-suc 2 k, bits-lt k, wraps)
    where
      wraps : ((2 ^ k * 2) % u32_mod ≡ 2 ^ k * 2) ⊎ ((2 ^ k * 2) % u32_mod < 2 ^ k)
      wraps = omega arith

  one-RunsTo :
      (l : ℕ) (x : Uint256)
      → get_elem? leaves l ≡ some x
      → l + 1 < u32_mod
      → RunsTo 1 l (l + 1) (x, x ∷ [])
  unfolding hash_full
  one-RunsTo l x e fits zero h = absurd (omega arith)
  one-RunsTo l x e fits (suc fuel) h =
      let width : (l + 1 + u32_mod - l) % u32_mod ≡ 1 = omega arith in rw (width, e)

  -- A full tree has one hash, its root.
  Full-RunsTo :
      {k : ℕ} {ls : List Uint256} {x : Uint256} (l : ℕ)
      → Full sha256 k ls x
      → At leaves l ls
      → l + 2 ^ k < u32_mod
      → RunsTo (suc k) l (l + 2 ^ k) (x, x ∷ [])
  Full-RunsTo {x = x} l (Full.leaf e f) at fits =
      let at' : At leaves l (x ∷ []) = rw f at at in
      let zeroth : l + 0 ≡ l = omega arith in
      let first : get_elem? leaves l ≡ some x = rw zeroth at (at' 0 (omega arith)) in
      rw e (one-RunsTo l x first (rw e at fits))
  Full-RunsTo l
        (Full.node {k = k} {j = j} {left = left} {right = right} {a = a} {b = b} e f g ta tb) at
        fits =
      let fits' : l + 2 ^ suc j < u32_mod = rw e at fits in
      let at' : At leaves l (left ++ right) = rw f at at in
      let whole : l + 2 ^ j + 2 ^ j ≡ l + 2 ^ suc j = omega (arith, pow-suc 2 j) in
      let half : l + 2 ^ j ≡ l + length left = omega (arith, Full-length sha256 ta) in
      let first = Full-RunsTo l ta (At-left leaves l left right at') (omega (arith, pow-suc 2 j)) in
      let second =
        Full-RunsTo (l + 2 ^ j) tb (At-right leaves l (l + 2 ^ j) left right half at')
          (omega (arith, whole)) in
      let joined =
        join-RunsTo (suc j) j l (2 ^ suc j) a b (b ∷ [])
          (omega (arith, pow-suc 2 j, one-le-pow j 2 (omega arith))) (omega arith) fits' first
          (rw whole at second) in
      rw (e, g)
        (rw (join_full-full (2 ^ suc j) j a b (a ∷ []) (b ∷ []) refl (omega arith)) at joined)

  -- A full tree and fewer leaves behind it.
  block-RunsTo :
      {k : ℕ} {blk : List Uint256} {x y : Uint256} {ys : List Uint256} (l t : ℕ)
      → Full sha256 k blk x
      → At leaves l blk
      → 0 < t
      → t < 2 ^ k
      → l + (2 ^ k + t) < u32_mod
      → RunsTo (suc k) (l + 2 ^ k) (l + (2 ^ k + t)) (y, ys)
      → RunsTo (suc (suc k)) l (l + (2 ^ k + t)) (hash_children sha256 x y, x ∷ ys)
  block-RunsTo {k} {x = x} {y = y} {ys = ys} l t full at pos less fits tail =
      let two : 2 ^ suc k ≡ 2 ^ k * 2 = pow-suc 2 k in
      rw (join_full-part (2 ^ k + t) k x y (x ∷ []) ys (omega arith) (omega arith) (omega arith)) at
        (join-RunsTo (suc k) k l (2 ^ k + t) x y ys (omega arith) (omega arith) fits
          (Full-RunsTo l full at (omega arith)) tail)

  weaken :
      (m n l r : ℕ) (res : Uint256 × List Uint256) → m ≤ n → RunsTo m l r res → RunsTo n l r res
  weaken m n l r res h run fuel k = run fuel (omega arith)

  pub fold_onto-append :
      (hs : List Uint256) (h y : Uint256)
      → fold_onto sha256 (hs ++ (h ∷ [])) y ≡ fold_onto sha256 hs (hash_children sha256 h y)
  unfolding fold_onto
  fold_onto-append [] h y = refl
  fold_onto-append (x ∷ hs) h y = ap (hash_children sha256 x) (fold_onto-append hs h y)

  -- The leaves of a forest and fewer than 2 ^ k leaves behind them: the roots of the blocks, the
  -- largest first, and then the hashes of the tail.
  Forest-tail-RunsTo :
      {k s : ℕ} {hs ls : List Uint256} (b l t : ℕ) (y : Uint256) (ys : List Uint256)
      → Forest sha256 k s hs ls
      → s < 2 ^ b
      → At leaves l ls
      → 0 < t
      → t < 2 ^ k
      → l + (length ls + t) < u32_mod
      → RunsTo (suc k) (l + length ls) (l + (length ls + t)) (y, ys)
      → RunsTo
          (suc (k + b))
          l
          (l + (length ls + t))
          (fold_onto sha256 (reverse hs) y, reverse hs ++ ys)
  unfolding fold_onto
  Forest-tail-RunsTo {k} b l t y ys (Forest.done e f g) bits at pos less fits tail =
      let here : l + 0 ≡ l = omega arith in
      let tail' : RunsTo (suc k) l (l + (0 + t)) (y, ys) = rw (g, here) at tail in
      rw (f, g) (weaken (suc k) (suc (k + b)) l (l + (0 + t)) (y, ys) (omega arith) tail')
  Forest-tail-RunsTo zero l t y ys (Forest.even e p f) bits at pos less fits tail =
      absurd (omega arith)
  Forest-tail-RunsTo {k} {hs = hs} {ls = ls} (suc b) l t y ys (Forest.even {s' = s'} e p f) bits at
        pos less fits tail =
      let r = l + (length ls + t) in
      let tail' = weaken (suc k) (suc (suc k)) (l + length ls) r (y, ys) (omega arith) tail in
      let run =
        Forest-tail-RunsTo b l t y ys f (omega (arith, pow-suc 2 b)) at pos
          (omega (arith, pow-suc 2 k)) fits tail' in
      weaken (suc (suc k + b)) (suc (k + suc b)) l r
        (fold_onto sha256 (reverse hs) y, reverse hs ++ ys) (omega arith) run
  Forest-tail-RunsTo zero l t y ys (Forest.odd e f g x fr) bits at pos less fits tail =
      absurd (omega arith)
  Forest-tail-RunsTo {k} {hs = hs} {ls = ls} (suc b) l t y ys
        (Forest.odd {hs' = hs'} {front = front} {blk = blk} {h = h} e f g x fr) bits at pos less
        fits tail =
      let m = l + length front in
      let at' : At leaves l (front ++ blk) = rw g at at in
      let size : length ls ≡ length front + 2 ^ k =
        omega (arith, ap length g, length-append front blk, Full-length sha256 x) in
      let start : l + length ls ≡ m + 2 ^ k = omega (arith, size) in
      let end : l + (length ls + t) ≡ m + (2 ^ k + t) = omega (arith, size) in
      let end' : m + (2 ^ k + t) ≡ l + (length front + (2 ^ k + t)) = omega arith in
      let tail' : RunsTo (suc k) (m + 2 ^ k) (m + (2 ^ k + t)) (y, ys) = rw (start, end) at tail in
      let block =
        block-RunsTo m t x (At-right leaves l m front blk refl at') pos less (omega (arith, end))
          tail' in
      let run =
        Forest-tail-RunsTo b l (2 ^ k + t) (hash_children sha256 h y) (h ∷ ys) fr
          (omega (arith, pow-suc 2 b)) (At-left leaves l front blk at') (omega arith)
          (omega (arith, pow-suc 2 k)) (omega (arith, size)) (rw end' at block) in
      λ fuel q.
        rw
          (
            f,
            end ∙ end',
            reverse-append (h ∷ []) hs',
            fold_onto-append (reverse hs') h y,
            append_assoc (reverse hs') (h ∷ []) ys,
          )
          (run fuel (omega arith))

  pub hash_fold-append :
      (hs : List Uint256) (y : Uint256)
      → hash_fold sha256 (hs ++ (y ∷ [])) ≡ some (fold_onto sha256 hs y)
  unfolding hash_fold fold_last fold_onto
  hash_fold-append [] y = refl
  hash_fold-append (h ∷ []) y = refl
  hash_fold-append (h ∷ (x ∷ hs)) y =
      ap some (ap (hash_children sha256 h) (some-injective _ _ (hash_fold-append (x ∷ hs) y)))

  -- The leaves of a forest: the roots of the blocks, the largest first, and the fold of them.
  pub Forest-RunsTo :
      {k s : ℕ} {hs ls : List Uint256} (b l : ℕ)
      → Forest sha256 k s hs ls
      → s < 2 ^ b
      → 0 < s
      → At leaves l ls
      → l + length ls < u32_mod
      → (y : Uint256) × (hash_fold sha256 (reverse hs) ≡ some y)
        × RunsTo (suc (k + b)) l (l + length ls) (y, reverse hs)
  Forest-RunsTo b l (Forest.done e f g) bits pos at fits = absurd (omega arith)
  Forest-RunsTo zero l (Forest.even e p f) bits pos at fits = absurd (omega arith)
  Forest-RunsTo {k} {hs = hs} {ls = ls} (suc b) l (Forest.even e p f) bits pos at fits =
      let (y, fold, run) = Forest-RunsTo b l f (omega (arith, pow-suc 2 b)) p at fits in
      (
        y,
        fold,
        weaken (suc (suc k + b)) (suc (k + suc b)) l (l + length ls) (y, reverse hs) (omega arith)
            run,
      )
  Forest-RunsTo zero l (Forest.odd e f g x fr) bits pos at fits = absurd (omega arith)
  Forest-RunsTo {k} {hs = hs} {ls = ls} (suc b) l
        (Forest.odd {hs' = hs'} {front = front} {blk = blk} {h = h} e f g x fr) bits pos at fits =
      let at' : At leaves l (front ++ blk) = rw g at at in
      let size : length ls ≡ length front + 2 ^ k =
        omega (arith, ap length g, length-append front blk, Full-length sha256 x) in
      let end : l + length ls ≡ l + (length front + 2 ^ k) = omega (arith, size) in
      let end' : l + length front + 2 ^ k ≡ l + (length front + 2 ^ k) = omega arith in
      let block =
        Full-RunsTo (l + length front) x (At-right leaves l (l + length front) front blk refl at')
          (omega (arith, size)) in
      let run =
        Forest-tail-RunsTo b l (2 ^ k) h (h ∷ []) fr (omega (arith, pow-suc 2 b))
          (At-left leaves l front blk at') (one-le-pow k 2 (omega arith))
          (omega (arith, pow-suc 2 k, one-le-pow k 2 (omega arith))) (omega (arith, size))
          (weaken (suc k) (suc (suc k)) (l + length front) (l + (length front + 2 ^ k)) (h, h ∷ [])
            (omega arith) (rw end' at block)) in
      let rev : reverse hs ≡ reverse hs' ++ (h ∷ []) = rw f (reverse-append (h ∷ []) hs') in
      (
        fold_onto sha256 (reverse hs') h,
        rw rev (hash_fold-append (reverse hs') h),
        λ fuel q. rw (rev, end) (run fuel (omega arith)),
      )
