-- ===== src/Merkle/StoredProof.antt =====
-- `InclusionProof` and `ConsistencyProof` of node/merkle/merkle_tree.go, over the memory hash store
-- of file_hash_store.go, whose GetHash panics behind the end. `none` is a panic. A round halves
-- the size or does better, so 33 rounds are enough for a uint32; the lists that the code reverses at
-- the end are built from the front.
use layer.Base.{
  ℕ, zero, suc, ◌+◌, ◌-◌, ◌*◌, ◌/◌, ◌%◌, Bool, true, false, Option, none, some, List, [], ◌∷◌, map,
  get_elem?, ltb, leb, ◌==◌, if◌then◌else◌, Outcome, ok, err,
}
use layer.Merkle.Util.{u32_mod, high_bit}
use layer.Merkle.Hasher.{Uint256, ◌>>=◌, hash_fold, split_width}
use layer.Merkle.Tree.{CompactMerkleTree}

pub data ProofError : Type 0 where
  wrong_parameters not_available no_hash_store panics : ProofError

-- `n - 1` on uint32.
unfoldable pub pred32 : ℕ → ℕ
pred32 n = (n + u32_mod - 1) % u32_mod

-- `uint32(1 << (highBit(n-1) - 1))`; the shift by highBit(0) - 1 leaves nothing.
unfoldable pub split_at : ℕ → ℕ
split_at n = if high_bit (pred32 n) == 0 then 0 else split_width n

unfoldable pub get_hash : List Uint256 → ℕ → Option Uint256
get_hash store pos = get_elem? store pos

unfoldable pub get_hashes : List Uint256 → List ℕ → Option (List Uint256)
get_hashes store [] = some []
get_hashes store (pos ∷ rest) =
    get_hash store (pred32 pos) >>= λ h. get_hashes store rest >>= λ hs. some (h ∷ hs)

-- for ; n != 0; n = n >> 1: one size for each bit of n, the largest first.
unfoldable pub sub_tree_loop : ℕ → ℕ → ℕ → List ℕ → List ℕ
sub_tree_loop zero n id sizes = sizes
sub_tree_loop (suc fuel) n id sizes = elim (n == 0) [
  | true ↦ sizes
  | false ↦
      let id' = (id * 2) % u32_mod in
      sub_tree_loop fuel (n / 2) id' (if n % 2 == 1 then pred32 id' ∷ sizes else sizes)
]

unfoldable pub get_sub_tree_size : ℕ → List ℕ
get_sub_tree_size n = sub_tree_loop 33 n 1 []

-- Each position is the sum of the sizes up to its own.
unfoldable pub sums_from : ℕ → List ℕ → List ℕ
sums_from before [] = []
sums_from before (size ∷ sizes) = let pos = (before + size) % u32_mod in pos ∷ sums_from pos sizes

unfoldable pub get_sub_tree_pos : ℕ → List ℕ
get_sub_tree_pos n = sums_from 0 (get_sub_tree_size n)

module _ (sha256 : List ℕ → Uint256) where
  unfoldable pub merkle_root : List Uint256 → ℕ → Option Uint256
  merkle_root store n = get_hashes store (get_sub_tree_pos n) >>= hash_fold sha256

  -- The root of the right part, from `k` to `n`.
  unfoldable pub right_root : List Uint256 → ℕ → ℕ → ℕ → Option Uint256
  right_root store offset k n =
      get_hashes store (
        map (λ pos. (pos + pred32 (offset + k * 2)) % u32_mod)
          (get_sub_tree_pos ((n + u32_mod - k) % u32_mod)))
      >>= hash_fold sha256

  -- for n != 1
  unfoldable pub inclusion_loop :
      ℕ → List Uint256 → ℕ → ℕ → ℕ → List Uint256 → Option (List Uint256)
  inclusion_loop zero store offset m n hashes = none
  inclusion_loop (suc fuel) store offset m n hashes = elim (n == 1) [
    | true ↦ some hashes
    | false ↦
        let k = split_at n in
        elim (ltb m k) [
          | true ↦
              right_root store offset k n >>= λ h. inclusion_loop fuel store offset m k (h ∷ hashes)
          | false ↦
              let offset' = pred32 (offset + k * 2) in
              get_hash store (pred32 offset') >>= λ h.
              inclusion_loop fuel store offset' (m - k) (n - k) (h ∷ hashes)
        ]
  ]

  unfoldable pub or_panics : Option (List Uint256) → Outcome ProofError (List Uint256)
  or_panics none = err panics
  or_panics (some hashes) = ok hashes

  unfoldable pub inclusion_from : Option (List Uint256) → ℕ → ℕ → Outcome ProofError (List Uint256)
  inclusion_from none m n = err no_hash_store
  inclusion_from (some store) m n = or_panics (inclusion_loop 33 store 0 m n [])

  unfoldable pub inclusion_proof : CompactMerkleTree → ℕ → ℕ → Outcome ProofError (List Uint256)
  inclusion_proof tree m n =
      if leb n m
      then err wrong_parameters
      else if ltb tree.tree_size n
      then err not_available
      else inclusion_from tree.hash_store m n

  -- What `subproof` adds where the loop ends with `b` unset.
  unfoldable pub last_root : List Uint256 → ℕ → List ℕ → List Uint256 → Option (List Uint256)
  last_root store offset (pos ∷ []) hashes =
      get_hash store (pred32 (pos + offset)) >>= λ h. some (h ∷ hashes)
  last_root store offset _ hashes = none

  -- for m < n
  unfoldable pub subproof_loop :
      ℕ → List Uint256 → ℕ → ℕ → ℕ → Bool → List Uint256 → Option (List Uint256)
  subproof_loop zero store offset m n b hashes = none
  subproof_loop (suc fuel) store offset m n b hashes = elim (ltb m n) [
    | false ↦ if b then some hashes else last_root store offset (get_sub_tree_pos n) hashes
    | true ↦
        let k = split_at n in
        elim (leb m k) [
          | true ↦ right_root store offset k n >>= λ h.
              subproof_loop fuel store offset m k b (h ∷ hashes)
          | false ↦
              let offset' = pred32 (offset + k * 2) in
              get_hash store (pred32 offset') >>= λ h.
              subproof_loop fuel store offset' (m - k) (n - k) false (h ∷ hashes)
        ]
  ]

  unfoldable pub subproof : List Uint256 → ℕ → ℕ → Bool → Option (List Uint256)
  subproof store m n b = subproof_loop 33 store 0 m n b []

  unfoldable pub consistency_from : Option (List Uint256) → ℕ → ℕ → Option (List Uint256)
  consistency_from none m n = some []
  consistency_from (some store) m n = subproof store m n true

  -- The empty list stands for nil.
  unfoldable pub consistency_proof : CompactMerkleTree → ℕ → ℕ → Option (List Uint256)
  consistency_proof tree m n =
      if ltb n m
      then some []
      else if ltb tree.tree_size n
      then some []
      else consistency_from tree.hash_store m n
