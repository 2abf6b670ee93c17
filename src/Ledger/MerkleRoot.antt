-- ===== src/Ledger/MerkleRoot.antt =====
-- node/common/merkle_tree.go: the root of a block's transaction hashes. A level is overwritten from
-- its front, behind the hashes that are still to be read.
use native.Mathlib.Nat.{pow-suc, one-le-pow}
use layer.Base.{
  ℕ, zero, suc, ◌*◌, ◌^◌, ◌≤◌, ◌<◌, ◌≡◌, refl, ap, ◌∙◌, List, [], ◌∷◌, ◌++◌, length, length-take,
  take, drop, leb, arith, replicate, Bool-cases, inl, inr,
}

module _ (sha256 : List ℕ → List ℕ) where
  unfoldable pub join : List ℕ → List ℕ → List ℕ
  join a b = sha256 (sha256 (a ++ b))

  -- One round of the outer loop: an odd hash at the end is joined with itself.
  unfoldable pub next_level : List (List ℕ) → List (List ℕ)
  next_level [] = []
  next_level (a ∷ []) = join a a ∷ []
  next_level (a ∷ b ∷ rest) = join a b ∷ next_level rest

  -- The rounds over a level of one hash or more, its first hash apart; `fuel` bounds them.
  unfoldable pub levels : ℕ → List ℕ → List (List ℕ) → List ℕ
  levels zero a rest = a
  levels (suc fuel) a [] = a
  levels (suc fuel) a (b ∷ rest) = levels fuel (join a b) (next_level rest)

  unfoldable pub compute_merkle_root : List (List ℕ) → List ℕ
  compute_merkle_root [] = replicate 32 0
  compute_merkle_root (a ∷ rest) = levels (length rest) a rest

  -- The tree of a height from its root down, over at most 2 ^ height hashes. The right half holds
  -- what is left over behind the left one; where nothing is, it is the left half again.
  unfoldable pub or_left : List ℕ → List ℕ → List (List ℕ) → List ℕ
  or_left left right [] = left
  or_left left right (h ∷ hs) = right

  unfoldable pub tree : ℕ → List (List ℕ) → List ℕ
  tree zero [] = []
  tree zero (a ∷ rest) = a
  tree (suc height) hs =
      let left = tree height (take (2 ^ height) hs) in
      let right = tree height (drop (2 ^ height) hs) in
      sha256 (sha256 (left ++ or_left left right (drop (2 ^ height) hs)))

  length-next_level :
      (hs : List (List ℕ))
      → (length hs ≤ 2 * length (next_level hs)) × (2 * length (next_level hs) ≤ suc (length hs))
  unfolding next_level
  length-next_level [] = omega arith
  length-next_level (a ∷ []) = omega arith
  length-next_level (a ∷ b ∷ rest) = omega (arith, length-next_level rest)

  double : ℕ → ℕ
  double zero = zero
  double (suc k) = suc (suc (double k))

  double_lem : (k : ℕ) → double k ≡ 2 * k
  unfolding double
  double_lem zero = refl
  double_lem (suc k) = omega (arith, double_lem k)

  double-pow : (height : ℕ) → double (2 ^ height) ≡ 2 ^ suc height
  double-pow height = double_lem (2 ^ height) ∙ omega (arith, pow-suc 2 height)

  take-next_level :
      (k : ℕ) (hs : List (List ℕ)) → take k (next_level hs) ≡ next_level (take (double k) hs)
  unfolding next_level double
  take-next_level zero hs = refl
  take-next_level (suc k) [] = refl
  take-next_level (suc k) (a ∷ []) = take_nil k
    where
      take_nil : (k : ℕ) → join a a ∷ take k [] ≡ join a a ∷ []
      take_nil zero = refl
      take_nil (suc k) = refl
  take-next_level (suc k) (a ∷ b ∷ rest) = ap (◌∷◌ (join a b)) (take-next_level k rest)

  drop-next_level :
      (k : ℕ) (hs : List (List ℕ)) → drop k (next_level hs) ≡ next_level (drop (double k) hs)
  unfolding next_level double
  drop-next_level zero hs = refl
  drop-next_level (suc k) [] = refl
  drop-next_level (suc k) (a ∷ []) = drop_nil k
    where
      drop_nil : (k : ℕ) → drop {A = List ℕ} k [] ≡ []
      drop_nil zero = refl
      drop_nil (suc k) = refl
  drop-next_level (suc k) (a ∷ b ∷ rest) = drop-next_level k rest

  -- The right half of a level, where the tree is known on the level if it is not empty.
  or_left-next_level :
      (left right next : List ℕ) (hs : List (List ℕ))
      → (0 < length hs → next ≡ right)
      → or_left left next (next_level hs) ≡ or_left left right hs
  unfolding or_left next_level
  or_left-next_level left right next [] h = refl
  or_left-next_level left right next (a ∷ []) h = h (omega arith)
  or_left-next_level left right next (a ∷ b ∷ rest) h = h (omega arith)

  tree-next_level :
      (height : ℕ) (hs : List (List ℕ))
      → 0 < length hs
      → tree height (next_level hs) ≡ tree (suc height) hs
  unfolding tree next_level or_left join
  tree-next_level zero [] h = absurd (omega arith)
  tree-next_level zero (a ∷ []) h = refl
  tree-next_level zero (a ∷ b ∷ rest) h = refl
  tree-next_level (suc height) hs h =
      let p = 2 ^ suc height in
      let positive : 0 < p = one-le-pow (suc height) 2 (omega arith) in
      let left = tree-next_level height (take p hs) (omega (arith, length-take p hs)) in
      let right =
        or_left-next_level (tree (suc height) (take p hs)) _ _ (drop p hs)
          (tree-next_level height (drop p hs)) in
      rw
        (
          take-next_level (2 ^ height) hs,
          drop-next_level (2 ^ height) hs,
          double-pow height,
          left,
          right,
        )
        refl

  levels-tree :
      (fuel height : ℕ) (a : List ℕ) (rest : List (List ℕ))
      → length rest ≤ fuel
      → suc (length rest) ≤ 2 ^ height
      → 2 ^ height < 2 * suc (length rest)
      → levels fuel a rest ≡ tree height (a ∷ rest)
  unfolding levels tree next_level
  levels-tree fuel zero a (b ∷ rest) h low high = absurd (omega arith)
  levels-tree zero zero a [] h low high = refl
  levels-tree (suc fuel) zero a [] h low high = refl
  levels-tree fuel (suc height) a [] h low high =
      let positive : 1 ≤ 2 ^ height = one-le-pow height 2 (omega arith) in
      absurd (omega (arith, pow-suc 2 height))
  levels-tree zero (suc height) a (b ∷ rest) h low high = absurd (omega arith)
  levels-tree (suc fuel) (suc height) a (b ∷ rest) h low high =
      let twice = pow-suc 2 height in
      let next = length-next_level rest in
      levels-tree fuel height (join a b) (next_level rest) (omega arith) (omega arith) (omega arith)
      ∙ tree-next_level height (a ∷ b ∷ rest) (omega arith)

  -- The height of a tree over n hashes.
  height_of : (n : ℕ) → (height : ℕ) × (suc n ≤ 2 ^ height) × (2 ^ height < 2 * suc n)
  height_of zero = (0, omega arith, omega arith)
  height_of (suc n) =
      let (height, low, high) = height_of n in
      elim (Bool-cases (leb (suc (suc n)) (2 ^ height))) [
        | inl fits ↦ (height, ground arith, omega arith)
        | inr full ↦
            let exact : 2 ^ height ≡ suc n = ground arith in
            let twice = pow-suc 2 height in (suc height, omega arith, omega arith)
      ]

  -- For one hash or more, `ComputeMerkleRoot`, whose rounds overwrite one level by the next,
  -- gives the root of the tree of the least height that holds the hashes, taken from the root
  -- down: a half that holds none is a copy of the half to its left.
  pub compute_merkle_root-tree :
      (a : List ℕ) (rest : List (List ℕ))
      → (height : ℕ) × (length (a ∷ rest) ≤ 2 ^ height)
        × (2 ^ height < 2 * length (a ∷ rest))
        × (compute_merkle_root (a ∷ rest) ≡ tree height (a ∷ rest))
  unfolding compute_merkle_root
  compute_merkle_root-tree a rest =
      let (height, low, high) = height_of (length rest) in
      (height, low, high, levels-tree (length rest) height a rest (omega arith) low high)
