-- ===== src/State/Keys.antt =====
-- The order of byte strings (`bytes.Compare`) and lists of keys with values, by that order.
use Prim.Native.Nat.{compare, Ordering}
use Prim.Native.Nat.Ordering.{lt, eq, gt}
use mathlib.Core.Path.{subst}
use layer.Base.{
  ℕ, ◌≡◌, ◌⊎◌, refl, sym, ap, ◌∙◌, true, false, List, [], ◌∷◌, All, Option, none, some, arith,
  if◌then◌else◌, bytes_equal, bytes_equal_refl, bytes_equal→eq, Bool-cases, inl, inr,
}

unfoldable pub compare_bytes : List ℕ → List ℕ → Ordering
compare_bytes [] [] = eq
compare_bytes [] (y ∷ ys) = lt
compare_bytes (x ∷ xs) [] = gt
compare_bytes (x ∷ xs) (y ∷ ys) = elim (compare x y) [
  | lt ↦ lt
  | eq ↦ compare_bytes xs ys
  | gt ↦ gt
]

abbrev pub Before : List ℕ → List ℕ → Type 0
Before j k = compare_bytes j k ≡ lt

pub compare_bytes_refl : (k : List ℕ) → compare_bytes k k ≡ eq
unfolding compare_bytes
compare_bytes_refl [] = refl
compare_bytes_refl (x ∷ k) = ground (arith, compare_bytes_refl k)

pub compare_bytes→eq : (j k : List ℕ) → compare_bytes j k ≡ eq → j ≡ k
unfolding compare_bytes
compare_bytes→eq [] [] h = refl
compare_bytes→eq [] (y ∷ k) h = cc
compare_bytes→eq (x ∷ j) [] h = cc
compare_bytes→eq (x ∷ j) (y ∷ k) h = ground (arith, compare_bytes→eq j k)

pub Before-flip : (j k : List ℕ) → compare_bytes j k ≡ gt → Before k j
unfolding compare_bytes
Before-flip [] [] h = cc
Before-flip [] (y ∷ k) h = cc
Before-flip (x ∷ j) [] h = refl
Before-flip (x ∷ j) (y ∷ k) h = ground (arith, Before-flip j k)

pub Before-trans : (i j k : List ℕ) → Before i j → Before j k → Before i k
unfolding compare_bytes
Before-trans [] [] k p q = cc
Before-trans [] (y ∷ j) [] p q = cc
Before-trans [] (y ∷ j) (z ∷ k) p q = refl
Before-trans (x ∷ i) [] k p q = cc
Before-trans (x ∷ i) (y ∷ j) [] p q = cc
Before-trans (x ∷ i) (y ∷ j) (z ∷ k) p q = ground (arith, Before-trans i j k)

pub Before-ne : (j k : List ℕ) → Before j k → bytes_equal j k ≡ false
Before-ne j k h = elim (Bool-cases (bytes_equal j k)) [
  | inl e ↦
      let same = bytes_equal→eq j k e in
      let self : compare_bytes j j ≡ lt = rw (← same) at h in cc (self, compare_bytes_refl j)
  | inr e ↦ e
]

-- An entry of a store: a key and a value.
abbrev pub Entry : Type 0
Entry = List ℕ × List ℕ

abbrev pub lookup : List ℕ → List Entry → Option (List ℕ)
lookup j [] = none
lookup j (e ∷ es) = if bytes_equal e.0 j then some e.1 else lookup j es

-- Every key is behind `k`.
abbrev pub Above : List ℕ → List Entry → Type 0
Above k es = All (λ (e : Entry). Before k e.0) es

-- The keys ascend.
abbrev pub IsSorted : List Entry → Type 0
IsSorted [] = Unit {0}
IsSorted (e ∷ es) = Above e.0 es × IsSorted es

pub lookup-Above : (k : List ℕ) (es : List Entry) → Above k es → lookup k es ≡ none
lookup-Above k [] h = refl
lookup-Above k (e ∷ es) (h, hs) =
    let apart : bytes_equal e.0 k ≡ false = bytes_equal-flip k e.0 (Before-ne k e.0 h) in
    rw apart (lookup-Above k es hs)
  where
    bytes_equal-flip : (a b : List ℕ) → bytes_equal a b ≡ false → bytes_equal b a ≡ false
    bytes_equal-flip a b h = elim (Bool-cases (bytes_equal b a)) [
      | inl e ↦ let same = bytes_equal→eq b a e in cc (h, same, bytes_equal_refl a)
      | inr e ↦ e
    ]

pub Above-trans : (j k : List ℕ) (es : List Entry) → Before j k → Above k es → Above j es
Above-trans j k [] h hs = tt
Above-trans j k (e ∷ es) h (a, hs) = (Before-trans j k e.0 h a, Above-trans j k es h hs)

-- Where the keys ascend, the key of the first entry is no other's.
pub lookup-first :
    (e : Entry) (es : List Entry) (k : List ℕ)
    → Above e.0 es
    → bytes_equal e.0 k ≡ true
    → lookup k es ≡ none
lookup-first e es k above h = rw (← bytes_equal→eq e.0 k h) (lookup-Above e.0 es above)

lookup_self : (e : Entry) (es : List Entry) → lookup e.0 (e ∷ es) ≡ some e.1
lookup_self e es = rw (bytes_equal_refl e.0)

pub compare_cases :
    (j k : List ℕ) → (compare_bytes j k ≡ lt) ⊎ (compare_bytes j k ≡ eq) ⊎ (compare_bytes j k ≡ gt)
compare_cases j k = cases (compare_bytes j k)
  where
    cases : (o : Ordering) → (o ≡ lt) ⊎ (o ≡ eq) ⊎ (o ≡ gt)
    cases lt = inl refl
    cases eq = inr (inl refl)
    cases gt = inr (inr refl)

-- A key before every key of `fs` cannot be looked up there.
not_before :
    (e : Entry) (es fs : List Entry)
    → Above e.0 fs
    → ((k : List ℕ) → lookup k (e ∷ es) ≡ lookup k fs)
    → ⊥
not_before e es fs above same = cc (lookup_self e es, same e.0, lookup-Above e.0 fs above)

lookup-tail :
    (e : Entry) (es fs : List Entry)
    → Above e.0 es
    → Above e.0 fs
    → ((k : List ℕ) → lookup k (e ∷ es) ≡ lookup k (e ∷ fs))
    → (k : List ℕ) → lookup k es ≡ lookup k fs
lookup-tail e es fs a b same k = elim (Bool-cases (bytes_equal e.0 k)) [
  | inl h ↦ lookup-first e es k a h ∙ sym (lookup-first e fs k b h)
  | inr h ↦ let whole = same k in rw h at whole
]

-- A sorted list of entries is known by what its keys look up.
pub IsSorted-unique :
    (es fs : List Entry)
    → IsSorted es
    → IsSorted fs
    → ((k : List ℕ) → lookup k es ≡ lookup k fs)
    → es ≡ fs
IsSorted-unique [] [] s t same = refl
IsSorted-unique [] (f ∷ fs) s t same = absurd (not_before f fs [] tt (λ k. sym (same k)))
IsSorted-unique (e ∷ es) [] s t same = absurd (not_before e es [] tt same)
IsSorted-unique (e ∷ es) (f ∷ fs) (a, s) (b, t) same = elim (compare_cases e.0 f.0) [
  | inl before ↦ absurd (not_before e es (f ∷ fs) (before, Above-trans e.0 f.0 fs before b) same)
  | inr (inl equal) ↦
      let key = compare_bytes→eq e.0 f.0 equal in
      let at_key : some e.1 ≡ some f.1 =
        sym (lookup_self e es) ∙ same e.0 ∙ ap (λ k. lookup k (f ∷ fs)) key ∙ lookup_self f fs in
      let value : e.1 ≡ f.1 = cc in
      let head : e ≡ f = λ i. (key i, value i) in
      let b' : Above e.0 fs = rw key b in
      let same' : (k : List ℕ) → lookup k (e ∷ es) ≡ lookup k (e ∷ fs) =
        subst (λ g. (k : List ℕ) → lookup k (e ∷ es) ≡ lookup k (g ∷ fs)) (sym head) same in
      let tail = IsSorted-unique es fs s t (lookup-tail e es fs a b' same') in rw (head, tail)
  | inr (inr behind) ↦
      let before = Before-flip e.0 f.0 behind in
      absurd
        (not_before f fs (e ∷ es) (before, Above-trans f.0 e.0 es before a) (λ k. sym (same k)))
]
