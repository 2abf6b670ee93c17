-- ===== src/Merkle/Hasher.antt =====
-- The TreeHasher of node/merkle/merkle_hasher.go, over the hash function of crypto/sha256. A hash is
-- its bytes. `none` is a panic, or fuel that ran out.
use layer.Base.{
  ℕ, zero, suc, ◌+◌, ◌-◌, ◌*◌, ◌%◌, ◌^◌, Bool, true, false, Option, none, some, List, [], ◌∷◌, ◌++◌,
  map, length, get_elem?, ◌==◌, if◌then◌else◌,
}
use layer.Merkle.Util.{u32_mod, count_bit, high_bit}

abbrev pub Uint256 : Type 0
Uint256 = List ℕ

infixl 5 ◌>>=◌
abbrev pub ◌>>=◌ : {A B : Type 0} → Option A → (A → Option B) → Option B
none >>= f = none
some a >>= f = f a

abbrev pub panic_unless : {A : Type 0} → Bool → Option A → Option A
panic_unless true m = m
panic_unless false m = none

-- `1 << (highBit(width-1) - 1)`
unfoldable pub split_width : ℕ → ℕ
split_width width = 2 ^ (high_bit (width - 1) - 1) % u32_mod

module _ (sha256 : List ℕ → Uint256) where
  unfoldable pub hash_empty : Uint256
  hash_empty = sha256 []

  unfoldable pub hash_leaf : List ℕ → Uint256
  hash_leaf input = sha256 (0 ∷ input)

  unfoldable pub hash_children : Uint256 → Uint256 → Uint256
  hash_children left right = sha256 (1 ∷ (left ++ right))

  -- for i := l - 2; i >= 0; i-- { accum = hash_children(hashes[i], accum) }
  unfoldable pub fold_onto : List Uint256 → Uint256 → Uint256
  fold_onto [] accum = accum
  fold_onto (h ∷ hs) accum = hash_children h (fold_onto hs accum)

  -- `_hash_fold` of `first` and then `others`; the last hash starts the fold.
  unfoldable pub fold_last : Uint256 → List Uint256 → Uint256
  fold_last first [] = first
  fold_last first (h ∷ hs) = hash_children first (fold_last h hs)

  unfoldable pub hash_fold : List Uint256 → Option Uint256
  hash_fold [] = none
  hash_fold (h ∷ hs) = some (fold_last h hs)

  -- `_hash_full` above the two recursive calls.
  unfoldable pub join_full :
      ℕ → ℕ → Uint256 × List Uint256 → Uint256 × List Uint256 → Uint256 × List Uint256
  join_full width split (l_root, l_hashes) (r_root, r_hashes) =
      let root = hash_children l_root r_root in
      if (split * 2) % u32_mod == width then (root, root ∷ []) else (root, l_hashes ++ r_hashes)

  unfoldable pub hash_full : ℕ → List Uint256 → ℕ → ℕ → Option (Uint256 × List Uint256)
  hash_full zero leaves l_idx r_idx = none
  hash_full (suc fuel) leaves l_idx r_idx =
      let width = (r_idx + u32_mod - l_idx) % u32_mod in
      let split = split_width width in
      let mid = (l_idx + split) % u32_mod in
      let both = hash_full fuel leaves l_idx mid >>= λ left.
      panic_unless (length left.1 == 1) (hash_full fuel leaves mid r_idx) >>= λ right.
      some (join_full width split left right) in
      if width == 0
      then some (hash_empty, [])
      else if width == 1
      then (get_elem? leaves l_idx >>= λ leaf_hash. some (leaf_hash, leaf_hash ∷ []))
      else both

  -- The widths halve, so that 33 levels of recursion are enough for a uint32.
  unfoldable pub hash_full_tree_with_leaf_hash : List Uint256 → Option Uint256
  hash_full_tree_with_leaf_hash leaves =
      let n = length leaves % u32_mod in
      hash_full 33 leaves 0 n >>= λ full. panic_unless (length full.1 == count_bit n) (some full.0)

  unfoldable pub hash_full_tree : List (List ℕ) → Option Uint256
  hash_full_tree leaves = hash_full_tree_with_leaf_hash (map hash_leaf leaves)
