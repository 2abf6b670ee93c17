-- ===== src/Merkle/Tree.antt =====
-- The CompactMerkleTree of node/merkle/merkle_tree.go: its state and the operations on the memory
-- part. `none` is a panic. The slices that a tree holds are its own (`append` may write behind the
-- end of `hashes`, where no slice in use reaches), so they are values here.
use layer.Base.{
  ℕ, zero, suc, ◌+◌, ◌-◌, ◌/◌, ◌%◌, true, false, Option, none, some, List, [], ◌∷◌, ◌++◌, length,
  get_elem?, take, replicate, ◌==◌, if◌then◌else◌, bytes_equal,
}
use mathlib.Core.List.{reverse}
use layer.Merkle.Util.{u32_mod, count_bit, low_bit}
use layer.Merkle.Hasher.{Uint256, ◌>>=◌, hash_empty, hash_leaf, hash_children, hash_fold}

abbrev pub empty_hash : Uint256
empty_hash = replicate 32 0

-- `hash_store` is what a HashStore holds: the hashes appended to it, in order; none is a nil store.
pub record CompactMerkleTree : Type 0 where
  pub mintree_h : ℕ
  pub hashes : List Uint256
  pub hash_store : Option (List Uint256)
  pub root_hash : Uint256
  pub tree_size : ℕ

-- `_update`
unfoldable pub update : CompactMerkleTree → ℕ → List Uint256 → Option CompactMerkleTree
update tree tree_size hashes =
    if length hashes == count_bit tree_size
    then some (record tree {
      tree_size = tree_size;
      hashes = hashes;
      mintree_h = low_bit tree_size;
      root_hash = empty_hash;
    })
    else none

unfoldable pub new_tree : ℕ → List Uint256 → Option (List Uint256) → Option CompactMerkleTree
new_tree tree_size hashes store =
    update
      (record {
        mintree_h = 0;
        hashes = [];
        hash_store = store;
        root_hash = empty_hash;
        tree_size = 0;
      })
      tree_size hashes

-- The variables of the loop in `AppendHash`.
pub record Carry : Type 0 where
  pub mintree_h : ℕ
  pub leaf : Uint256
  pub stored : List Uint256
  pub size : ℕ

-- `if self.hashStore != nil { Append; Flush }`
unfoldable pub store_append : Option (List Uint256) → List Uint256 → Option (List Uint256)
store_append none hashes = none
store_append (some old) hashes = some (old ++ hashes)

module _ (sha256 : List ℕ → Uint256) where
  -- The root that `Root` computes from the hashes.
  unfoldable pub fold_root : List Uint256 → Option Uint256
  fold_root hashes =
      if length hashes == 0 then some (hash_empty sha256) else hash_fold sha256 hashes

  -- `Root`: the root is kept in the tree, and the zero hash stands for none.
  unfoldable pub root : CompactMerkleTree → Option (Uint256 × CompactMerkleTree)
  root tree =
      if bytes_equal tree.root_hash empty_hash
      then (fold_root tree.hashes >>= λ h. some (h, record tree { root_hash = h }))
      else some (tree.root_hash, tree)

  unfoldable pub get_root_with_new_leaf : CompactMerkleTree → Uint256 → Option Uint256
  get_root_with_new_leaf tree new_leaf = hash_fold sha256 (tree.hashes ++ (new_leaf ∷ []))

  -- The body of the loop: `hashes[size-1]` panics at size 0.
  unfoldable pub carry_step : List Uint256 → Carry → Option Carry
  carry_step hashes c =
      if c.size == 0
      then none
      else (get_elem? hashes (c.size - 1) >>= λ h.
          let leaf = hash_children sha256 h c.leaf in
          some (record {
            mintree_h = c.mintree_h + 1;
            leaf = leaf;
            stored = c.stored ++ (leaf ∷ []);
            size = c.size - 1;
          }))

  -- for s := treeSize; s%2 == 1; s = s >> 1
  unfoldable pub carry_loop : ℕ → List Uint256 → ℕ → Carry → Option Carry
  carry_loop zero hashes s c = none
  carry_loop (suc fuel) hashes s c = elim (s % 2 == 1) [
    | true ↦ carry_step hashes c >>= carry_loop fuel hashes (s / 2)
    | false ↦ some c
  ]

  -- `AppendHash`: the audit path and the tree behind the call. A uint32 has 32 bits, so 33 rounds
  -- are enough.
  unfoldable pub append_hash :
      CompactMerkleTree → Uint256 → Option (List Uint256 × CompactMerkleTree)
  append_hash tree leaf =
      let size = length tree.hashes in
      let start : Carry = record { mintree_h = 1; leaf = leaf; stored = leaf ∷ []; size = size } in
      carry_loop 33 tree.hashes tree.tree_size start >>= λ c. some (
        reverse tree.hashes,
        record {
          mintree_h = c.mintree_h;
          hashes = take c.size tree.hashes ++ (c.leaf ∷ []);
          hash_store = store_append tree.hash_store c.stored;
          root_hash = empty_hash;
          tree_size = (tree.tree_size + 1) % u32_mod;
        },
      )

  unfoldable pub append_leaf :
      CompactMerkleTree → List ℕ → Option (List Uint256 × CompactMerkleTree)
  append_leaf tree leafv = append_hash tree (hash_leaf sha256 leafv)

  -- `cloneMem`
  unfoldable pub clone_mem : CompactMerkleTree → CompactMerkleTree
  clone_mem tree = record tree { hash_store = none }

  unfoldable pub append_hashes : CompactMerkleTree → List Uint256 → Option CompactMerkleTree
  append_hashes tree [] = some tree
  append_hashes tree (h ∷ hs) = append_hash tree h >>= λ r. append_hashes r.1 hs

  unfoldable pub get_root_with_new_leaves : CompactMerkleTree → List Uint256 → Option Uint256
  get_root_with_new_leaves tree new_leaf =
      append_hashes (clone_mem tree) new_leaf >>= λ t. root t >>= λ r. some r.0
