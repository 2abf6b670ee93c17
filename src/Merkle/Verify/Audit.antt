-- ===== src/Merkle/Verify/Audit.antt =====
-- The audit path that `AppendHash` answers with proves the new leaf to the verifier.
use layer.Base.{
  ℕ, zero, suc, ◌+◌, ◌-◌, ◌*◌, ◌/◌, ◌%◌, ◌^◌, ◌<◌, ◌≡◌, refl, ap, sym, ◌∙◌, true, false, some, List,
  [], ◌∷◌, ◌++◌, arith, ◌==◌, leb, ok, bytes_equal_refl,
}
use mathlib.Core.List.{reverse, reverse-append, reverse-reverse}
use native.Mathlib.Nat.{pow-suc}
use layer.Merkle.Util.{u32_mod}
use layer.Merkle.Hasher.{Uint256, hash_children, fold_onto, hash_full_tree_with_leaf_hash}
use layer.Merkle.HashFull.{fold_onto-append, hash_fold-append}
use layer.Merkle.Tree.{CompactMerkleTree, append_hash, get_root_with_new_leaf}
use layer.Merkle.Forest.{Forest}
use layer.Merkle.Root.{IsTreeOf, get_root_with_new_leaf-eq, append_hash-IsTreeOf}
use layer.Merkle.Verify.{
  climb, calculate_loop, calculate_root_hash_from_audit_path, verify_leaf_hash_inclusion,
}

module _ (sha256 : List ℕ → Uint256) where
  calculate_loop_stop :
      (n : ℕ) (hash : Uint256) (path : List Uint256)
      → calculate_loop sha256 (suc n) hash 0 0 path ≡ ok (hash, path)
  unfolding calculate_loop
  calculate_loop_stop n hash path = refl

  calculate_loop_turn :
      (n s t : ℕ) (hash h : Uint256) (path : List Uint256)
      → (t == 0) ≡ false
      → calculate_loop sha256 (suc n) hash s t (h ∷ path)
        ≡ calculate_loop sha256 n
            (climb sha256 s t hash h path).0
            (s / 2)
            (t / 2)
            (climb sha256 s t hash h path).1
  unfolding calculate_loop
  calculate_loop_turn n s t hash h path e = ground arith

  climb_odd :
      (s : ℕ) (hash h : Uint256) (path : List Uint256)
      → (s % 2 == 1) ≡ true
      → climb sha256 s s hash h path ≡ (hash_children sha256 h hash, path)
  unfolding climb
  climb_odd s hash h path e = rw e

  climb_even :
      (s : ℕ) (hash h : Uint256) (path : List Uint256)
      → (s % 2 == 1) ≡ false
      → climb sha256 s s hash h path ≡ (hash, h ∷ path)
  unfolding climb
  climb_even s hash h path e = rw e (ground arith)

  -- The last node of a level has a sibling exactly where it is a right child.
  calculate_loop_odd :
      (n s s' : ℕ) (hash h : Uint256) (path : List Uint256)
      → s ≡ 2 * s' + 1
      → calculate_loop sha256 (suc n) hash s s (h ∷ path)
        ≡ calculate_loop sha256 n (hash_children sha256 h hash) s' s' path
  calculate_loop_odd n s s' hash h path e =
      let half : s / 2 ≡ s' = omega arith in
      calculate_loop_turn n s s hash h path (ground arith)
      ∙ rw (climb_odd s hash h path (ground arith), half)

  calculate_loop_even :
      (n s s' : ℕ) (hash h : Uint256) (path : List Uint256)
      → s ≡ 2 * s'
      → 0 < s'
      → calculate_loop sha256 (suc n) hash s s (h ∷ path)
        ≡ calculate_loop sha256 n hash s' s' (h ∷ path)
  calculate_loop_even n s s' hash h path e p =
      let half : s / 2 ≡ s' = omega arith in
      calculate_loop_turn n s s hash h path (ground arith)
      ∙ rw (climb_even s hash h path (ground arith), half)

  Forest-empty : {k s : ℕ} {hs ls : List Uint256} → Forest sha256 k s hs ls → hs ≡ [] → s ≡ 0
  Forest-empty (Forest.done e f g) h = e
  Forest-empty (Forest.even e p t) h = absurd (omega (arith, Forest-empty t h))
  Forest-empty (Forest.odd e f g x t) h = cc

  Forest-calculate :
      {k s : ℕ} {hs ls : List Uint256} (b : ℕ) (hash : Uint256)
      → Forest sha256 k s hs ls
      → s < 2 ^ b
      → calculate_loop sha256 (suc b) hash s s hs ≡ ok (fold_onto sha256 (reverse hs) hash, [])
  unfolding fold_onto
  Forest-calculate b hash (Forest.done e f g) bits = rw (e, f) (calculate_loop_stop b hash [])
  Forest-calculate zero hash (Forest.even e p t) bits = absurd (omega arith)
  Forest-calculate {hs = []} (suc b) hash (Forest.even e p t) bits =
      absurd (omega (arith, Forest-empty t refl))
  Forest-calculate {s = s} {hs = h ∷ hs} (suc b) hash (Forest.even {s' = s'} e p t) bits =
      calculate_loop_even (suc b) s s' hash h hs e p
      ∙ Forest-calculate b hash t (omega (arith, pow-suc 2 b))
  Forest-calculate zero hash (Forest.odd e f g x t) bits = absurd (omega arith)
  Forest-calculate {s = s} (suc b) hash (Forest.odd {s' = s'} {hs' = hs'} {h = h} e f g x t) bits =
      rw (f, reverse-append (h ∷ []) hs', fold_onto-append sha256 [] (reverse hs') h hash)
        (calculate_loop_odd (suc b) s s' hash h hs' e
          ∙ Forest-calculate b (hash_children sha256 h hash) t (omega (arith, pow-suc 2 b)))

  -- The verifier computes, from the new leaf and the audit path of its append, the root that the
  -- tree has behind the append.
  calculate-append :
      (tree : CompactMerkleTree) (ls : List Uint256) (leaf : Uint256)
      → IsTreeOf sha256 tree ls
      → tree.tree_size + 1 < u32_mod
      → calculate_root_hash_from_audit_path sha256 leaf tree.tree_size
          (reverse tree.hashes)
          (tree.tree_size + 1)
        ≡ ok (fold_onto sha256 tree.hashes leaf)
  unfolding calculate_root_hash_from_audit_path
  calculate-append tree ls leaf t fits =
      let last : (tree.tree_size + 1 + u32_mod - 1) % u32_mod ≡ tree.tree_size = omega arith in
      let rev : reverse tree.hashes ≡ t.roots = ap reverse t.hashes ∙ reverse-reverse t.roots in
      rw (last, rev, Forest-calculate 32 leaf t.forest t.small, t.hashes)

  -- For a tree of the leaves `ls` with fewer than 2 ^ 32 - 1 of them, the path that `AppendHash`
  -- answers with is accepted by `VerifyLeafHashInclusion` for the new leaf at the old size as its
  -- index, against the root that `HashFullTreeWithLeafHash` computes for `ls` and the new leaf.
  pub verify-append :
      (tree : CompactMerkleTree) (ls : List Uint256) (leaf : Uint256)
      → IsTreeOf sha256 tree ls
      → tree.tree_size + 1 < u32_mod
      → (path : List Uint256) × (tree' : CompactMerkleTree) × (r : Uint256) × (append_hash sha256
            tree leaf
          ≡ some (path, tree'))
        × (hash_full_tree_with_leaf_hash sha256 (ls ++ (leaf ∷ [])) ≡ some r)
        × (verify_leaf_hash_inclusion sha256 leaf tree.tree_size path r (tree.tree_size + 1)
            ≡ ok tt)
  unfolding verify_leaf_hash_inclusion get_root_with_new_leaf
  verify-append tree ls leaf t fits =
      let (tree', run, _) = append_hash-IsTreeOf sha256 tree ls leaf t fits in
      let r = fold_onto sha256 tree.hashes leaf in
      let above : leb (tree.tree_size + 1) tree.tree_size ≡ false = ground arith in
      (
        reverse tree.hashes,
        tree',
        r,
        run,
        sym (get_root_with_new_leaf-eq sha256 tree ls leaf t fits)
            ∙ hash_fold-append sha256 [] tree.hashes leaf,
        rw (above, calculate-append tree ls leaf t fits, bytes_equal_refl r),
      )
