-- ===== src/Merkle/Root.antt =====
-- The compact tree's root is the root of the full tree over all leaves that were appended.
use layer.Base.{
  ℕ, ◌+◌, ◌%◌, ◌<◌, ◌≡◌, refl, ap, sym, ◌∙◌, true, false, Option, none, some, List, [], ◌∷◌, ◌++◌,
  append_assoc, append-nil, length, length-append, length-reverse, take, take_all, arith, ◌==◌, ◌⊎◌,
  inl, inr, Bool-cases, bytes_equal, bytes_equal_refl,
}
use mathlib.Core.List.{reverse}
use native.Mathlib.Nat.{mod-eq_of_lt}
use layer.Merkle.Util.{u32_mod, count_bit, count_bit_loop}
use layer.Merkle.Hasher.{
  Uint256, hash_empty, hash_fold, fold_onto, hash_full, hash_full_tree_with_leaf_hash,
}
use layer.Merkle.Tree.{
  CompactMerkleTree, Carry, append_hash, append_hashes, empty_hash, fold_root, root,
  get_root_with_new_leaf, get_root_with_new_leaves, clone_mem, store_append, new_tree, update,
}
use layer.Merkle.Forest.{Full, Forest, Forest-length}
use layer.Merkle.Bits.{count_bit-ones, Forest-ones}
use layer.Merkle.HashFull.{Forest-RunsTo, hash_fold-append}
use layer.Merkle.Append.{carry_loop-Carried}

module _ (sha256 : List ℕ → Uint256) where
  -- The tree holds the full blocks that its leaves `ls` split into, and a root that it keeps is the
  -- one that it would compute.
  pub record IsTreeOf (tree : CompactMerkleTree) (ls : List Uint256) : Type 0 where
    pub roots : List Uint256
    pub hashes : tree.hashes ≡ reverse roots
    pub forest : Forest sha256 0 tree.tree_size roots ls
    pub small : tree.tree_size < u32_mod
    pub kept : (tree.root_hash ≡ empty_hash) ⊎ (fold_root sha256 tree.hashes ≡ some tree.root_hash)

  pub IsTreeOf-size :
      {tree : CompactMerkleTree} {ls : List Uint256} → IsTreeOf tree ls → length ls ≡ tree.tree_size
  IsTreeOf-size t = omega (arith, Forest-length sha256 t.forest)

  -- A tree of some leaves keeps as many hashes as `countBit` gives for its size.
  pub IsTreeOf-count :
      {tree : CompactMerkleTree} {ls : List Uint256}
      → IsTreeOf tree ls
      → length tree.hashes ≡ count_bit tree.tree_size
  IsTreeOf-count t = omega (
    arith,
    ap length t.hashes,
    length-reverse t.roots,
    Forest-ones sha256 32 t.forest t.small,
    count_bit-ones _ t.small,
  )

  append_hash_step :
      (tree : CompactMerkleTree) (ls : List Uint256) (leaf : Uint256)
      → IsTreeOf tree ls
      → tree.tree_size + 1 < u32_mod
      → (tree' : CompactMerkleTree) × (append_hash sha256 tree leaf
          ≡ some (reverse tree.hashes, tree'))
        × IsTreeOf tree' (ls ++ (leaf ∷ []))
        × (hash_fold sha256 tree'.hashes ≡ get_root_with_new_leaf sha256 tree leaf)
  unfolding append_hash get_root_with_new_leaf
  append_hash_step tree ls leaf t fits =
      let start : Carry = record {
        mintree_h = 1;
        leaf = leaf;
        stored = leaf ∷ [];
        size = length tree.hashes;
      } in
      let (c, run, carried) =
        carry_loop-Carried sha256 32 tree.hashes start t.forest t.small (Full.leaf refl refl)
          (take_all (length tree.hashes) tree.hashes (omega arith) ∙ t.hashes)
          (ap length t.hashes ∙ length-reverse t.roots) in
      let size : (tree.tree_size + 1) % u32_mod ≡ tree.tree_size + 1 = mod-eq_of_lt fits in
      (
        record {
          mintree_h = c.mintree_h;
          hashes = take c.size tree.hashes ++ (c.leaf ∷ []);
          hash_store = store_append tree.hash_store c.stored;
          root_hash = empty_hash;
          tree_size = (tree.tree_size + 1) % u32_mod;
        },
        rw run,
        record {
          roots = carried.roots;
          hashes = carried.kept;
          forest = rw size carried.forest;
          small = rw size fits;
          kept = inl refl;
        },
        hash_fold-append sha256 [] (take c.size tree.hashes) c.leaf
            ∙ ap some carried.folded
            ∙ ap (λ hs. some (fold_onto sha256 hs leaf))
                (take_all (length tree.hashes) tree.hashes (omega arith))
            ∙ sym (hash_fold-append sha256 [] tree.hashes leaf),
      )

  -- For a tree of the leaves `ls` with fewer than 2 ^ 32 - 1 of them, `AppendHash` does not
  -- panic: it answers with the old hashes in reverse and leaves a tree of `ls` and the new leaf.
  pub append_hash-IsTreeOf :
      (tree : CompactMerkleTree) (ls : List Uint256) (leaf : Uint256)
      → IsTreeOf tree ls
      → tree.tree_size + 1 < u32_mod
      → (tree' : CompactMerkleTree) × (append_hash sha256 tree leaf
          ≡ some (reverse tree.hashes, tree'))
        × IsTreeOf tree' (ls ++ (leaf ∷ []))
  append_hash-IsTreeOf tree ls leaf t fits =
      let (tree', run, t', _) = append_hash_step tree ls leaf t fits in (tree', run, t')

  length_zero : (xs : List Uint256) → length xs ≡ 0 → xs ≡ []
  length_zero [] h = refl
  length_zero (x ∷ xs) h = absurd (omega arith)

  full_nil : hash_full_tree_with_leaf_hash sha256 [] ≡ some (hash_empty sha256)
  unfolding hash_full_tree_with_leaf_hash hash_full count_bit count_bit_loop
  full_nil = refl

  fold_root_nil : fold_root sha256 [] ≡ some (hash_empty sha256)
  unfolding fold_root
  fold_root_nil = refl

  fold_root-eq :
      (hs : List Uint256) {y : Uint256}
      → hash_fold sha256 hs ≡ some y
      → fold_root sha256 hs ≡ some y
  unfolding fold_root hash_fold
  fold_root-eq [] h = cc
  fold_root-eq (x ∷ hs) h = ground (arith, h)

  full_some :
      (ls : List Uint256) (y : Uint256) (hs : List Uint256)
      → length ls < u32_mod
      → hash_full sha256 33 ls 0 (length ls) ≡ some (y, hs)
      → length hs ≡ count_bit (length ls)
      → hash_full_tree_with_leaf_hash sha256 ls ≡ some y
  unfolding hash_full_tree_with_leaf_hash
  full_some ls y hs fits run count =
      let n : length ls % u32_mod ≡ length ls = mod-eq_of_lt fits in
      let same : (length hs == count_bit (length ls)) ≡ true = ground arith in rw (n, run, same)

  -- The full tree over the leaves of a tree, as the recursive hasher computes it, panics on nothing
  -- and has the fold of the tree's hashes for its root.
  fold_root-full :
      (tree : CompactMerkleTree) (ls : List Uint256)
      → IsTreeOf tree ls
      → (r : Uint256) × (fold_root sha256 tree.hashes ≡ some r)
        × (hash_full_tree_with_leaf_hash sha256 ls ≡ some r)
  fold_root-full tree ls t = elim (zero_or_more tree.tree_size) [
    | inl z ↦
        let none_left = length_zero ls (omega (arith, IsTreeOf-size t)) in
        let no_hash = length_zero tree.hashes (IsTreeOf-count t ∙ ap count_bit z ∙ zero_bits) in
        (hash_empty sha256, rw no_hash fold_root_nil, rw none_left full_nil)
    | inr p ↦
        let size = IsTreeOf-size t in
        let (y, fold, run) =
          Forest-RunsTo sha256 ls 32 0 t.forest t.small p
            (λ i h. let e : 0 + i ≡ i = omega arith in rw e) (omega (arith, size)) in
        let all : 0 + length ls ≡ length ls = omega arith in
        let run' : hash_full sha256 33 ls 0 (length ls) ≡ some (y, reverse t.roots) =
          rw all at (run 33 (omega arith)) in
        (
          y,
          fold_root-eq tree.hashes (rw t.hashes fold),
          full_some ls y (reverse t.roots) (omega (arith, size)) run'
              (ap length (sym t.hashes) ∙ IsTreeOf-count t ∙ ap count_bit (sym size)),
        )
  ]
    where
      zero_or_more : (n : ℕ) → (n ≡ 0) ⊎ (0 < n)
      zero_or_more n = omega arith

      zero_bits : count_bit 0 ≡ 0
      zero_bits = unfold count_bit count_bit_loop in refl

  -- For a tree of the leaves `ls`, `Root` does not panic: it gives the root that
  -- `HashFullTreeWithLeafHash` computes for `ls`, which does not panic either, and the tree that
  -- it leaves is again a tree of `ls`.
  pub root-eq-hash_full :
      (tree : CompactMerkleTree) (ls : List Uint256)
      → IsTreeOf tree ls
      → (r : Uint256) × (tree' : CompactMerkleTree) × (root sha256 tree ≡ some (r, tree'))
        × (hash_full_tree_with_leaf_hash sha256 ls ≡ some r)
        × IsTreeOf tree' ls
  unfolding root
  root-eq-hash_full tree ls t =
      let (r, fold, full) = fold_root-full tree ls t in
      elim (Bool-cases (bytes_equal tree.root_hash empty_hash)) [
        | inl fresh ↦ (
          r,
          record tree { root_hash = r },
          rw (fresh, fold),
          full,
          record {
            roots = t.roots;
            hashes = t.hashes;
            forest = t.forest;
            small = t.small;
            kept = inr fold;
          },
        )
        | inr stored ↦ (tree.root_hash, tree, rw stored, full ∙ (sym fold ∙ cached stored), t)
      ]
    where
      cached :
          bytes_equal tree.root_hash empty_hash ≡ false
          → fold_root sha256 tree.hashes ≡ some tree.root_hash
      cached stored = elim t.kept [
        | inl e ↦ cc (stored, bytes_equal_refl empty_hash, ap (λ h. bytes_equal h empty_hash) e)
        | inr e ↦ e
      ]

  -- For a tree of the leaves `ls` with fewer than 2 ^ 32 - 1 of them, `GetRootWithNewLeaf` gives
  -- what `HashFullTreeWithLeafHash` computes for `ls` and the new leaf.
  pub get_root_with_new_leaf-eq :
      (tree : CompactMerkleTree) (ls : List Uint256) (leaf : Uint256)
      → IsTreeOf tree ls
      → tree.tree_size + 1 < u32_mod
      → get_root_with_new_leaf sha256 tree leaf
        ≡ hash_full_tree_with_leaf_hash sha256 (ls ++ (leaf ∷ []))
  unfolding get_root_with_new_leaf
  get_root_with_new_leaf-eq tree ls leaf t fits =
      let (tree', run, t', same) = append_hash_step tree ls leaf t fits in
      let (r, fold, full) = fold_root-full tree' (ls ++ (leaf ∷ [])) t' in
      let ahead = hash_fold-append sha256 [] tree.hashes leaf in
      ahead ∙ (sym (fold_root-eq tree'.hashes (same ∙ ahead)) ∙ (fold ∙ sym full))

  -- For a tree of the leaves `ls` that stays below 2 ^ 32 leaves with the new ones, appending
  -- these one by one does not panic and leaves a tree of `ls` and the new leaves.
  pub append_hashes-IsTreeOf :
      (tree : CompactMerkleTree) (ls news : List Uint256)
      → IsTreeOf tree ls
      → tree.tree_size + length news < u32_mod
      → (tree' : CompactMerkleTree) × (append_hashes sha256 tree news ≡ some tree')
        × IsTreeOf tree' (ls ++ news)
  unfolding append_hashes
  append_hashes-IsTreeOf tree ls [] t fits = (tree, refl, rw append-nil t)
  append_hashes-IsTreeOf tree ls (x ∷ news) t fits =
      let (tree1, run, t1) = append_hash-IsTreeOf tree ls x t (omega arith) in
      let grown : tree1.tree_size ≡ tree.tree_size + 1 =
        omega (arith, IsTreeOf-size t, IsTreeOf-size t1, length-append ls (x ∷ [])) in
      let (tree', runs, t') =
        append_hashes-IsTreeOf tree1 (ls ++ (x ∷ [])) news t1 (omega (arith, grown)) in
      (tree', rw run runs, rw (append_assoc ls (x ∷ []) news) at t')

  -- For a tree of the leaves `ls` that stays below 2 ^ 32 leaves with the new ones,
  -- `GetRootWithNewLeaves` does not panic: it gives the root that `HashFullTreeWithLeafHash`
  -- computes for `ls` and the new leaves.
  pub get_root_with_new_leaves-eq :
      (tree : CompactMerkleTree) (ls news : List Uint256)
      → IsTreeOf tree ls
      → tree.tree_size + length news < u32_mod
      → (r : Uint256) × (get_root_with_new_leaves sha256 tree news ≡ some r)
        × (hash_full_tree_with_leaf_hash sha256 (ls ++ news) ≡ some r)
  unfolding get_root_with_new_leaves clone_mem
  get_root_with_new_leaves-eq tree ls news t fits =
      let (tree1, run, t1) =
        append_hashes-IsTreeOf (record tree { hash_store = none }) ls news copy fits in
      let (r, tree2, top, full, _) = root-eq-hash_full tree1 (ls ++ news) t1 in
      (r, rw (run, top), full)
    where
      copy : IsTreeOf (record tree { hash_store = none }) ls
      copy = record {
        roots = t.roots;
        hashes = t.hashes;
        forest = t.forest;
        small = t.small;
        kept = t.kept;
      }

  -- A new tree has no leaves.
  pub new_tree-IsTreeOf :
      (store : Option (List Uint256))
      → (tree : CompactMerkleTree) × (new_tree 0 [] store ≡ some tree) × IsTreeOf tree []
  unfolding new_tree update count_bit count_bit_loop
  new_tree-IsTreeOf store = (
    _,
    refl,
    record {
      roots = [];
      hashes = refl;
      forest = Forest.done refl refl refl;
      small = omega arith;
      kept = inl refl;
    },
  )
