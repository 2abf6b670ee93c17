-- ===== src/Merkle/Forest.antt =====
-- What the hashes of a compact tree stand for: the roots of the full trees that the leaves split
-- into, one for each bit of their number.
use layer.Base.{
  ℕ, suc, ◌+◌, ◌*◌, ◌^◌, ◌<◌, ◌≡◌, ap, List, [], ◌∷◌, ◌++◌, length, length-append, arith,
}
use native.Mathlib.Nat.{pow-suc}
use layer.Merkle.Hasher.{Uint256, hash_children}

module _ (sha256 : List ℕ → Uint256) where
  -- A full tree of 2 ^ k leaves, and its root.
  pub data Full : ℕ → List Uint256 → Uint256 → Type 0 where
    leaf : {k : ℕ} {ls : List Uint256} {x : Uint256} → k ≡ 0 → ls ≡ x ∷ [] → Full k ls x
    node :
        {k j : ℕ} {ls left right : List Uint256} {x a b : Uint256}
        → k ≡ suc j
        → ls ≡ left ++ right
        → x ≡ hash_children sha256 a b
        → Full j left a
        → Full j right b
        → Full k ls x

  -- `Forest k s hs ls`: the leaves `ls` are s blocks of 2 ^ k, and `hs` has a root for each bit of
  -- s, the last and smallest block's first.
  pub data Forest : ℕ → ℕ → List Uint256 → List Uint256 → Type 0 where
    done : {k s : ℕ} {hs ls : List Uint256} → s ≡ 0 → hs ≡ [] → ls ≡ [] → Forest k s hs ls
    even :
        {k s s' : ℕ} {hs ls : List Uint256}
        → s ≡ 2 * s'
        → 0 < s'
        → Forest (suc k) s' hs ls
        → Forest k s hs ls
    odd :
        {k s s' : ℕ} {hs ls hs' front blk : List Uint256} {h : Uint256}
        → s ≡ 2 * s' + 1
        → hs ≡ h ∷ hs'
        → ls ≡ front ++ blk
        → Full k blk h
        → Forest (suc k) s' hs' front
        → Forest k s hs ls

  pub Full-length : {k : ℕ} {ls : List Uint256} {x : Uint256} → Full k ls x → length ls ≡ 2 ^ k
  Full-length (leaf e f) = rw (e, f)
  Full-length (node {j = j} {left = l} {right = r} e f g a b) =
      rw (e, f) (omega (arith, length-append l r, pow-suc 2 j, Full-length a, Full-length b))

  pub Forest-length : {k s : ℕ} {hs ls : List Uint256} → Forest k s hs ls → length ls ≡ s * 2 ^ k
  Forest-length (done e f g) = rw (e, g) (omega arith)
  Forest-length {k = k} (even {s' = s'} e pos t) =
      rw e (omega (arith, Forest-length t, ap (λ (p : ℕ). s' * p) (pow-suc 2 k)))
  Forest-length {k = k} (odd {s' = s'} {front = front} {blk = blk} e f g x t) =
      rw (e, g)
        (omega (
          arith,
          Forest-length t,
          Full-length x,
          ap (λ (p : ℕ). s' * p) (pow-suc 2 k),
          length-append front blk,
        ))
