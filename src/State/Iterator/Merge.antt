-- ===== src/State/Iterator/Merge.antt =====
-- Two ascending sequences of entries as one, in which the first hides the second.
use Prim.Native.Nat.Ordering.{lt, eq, gt}
use layer.Base.{
  ℕ, ◌≡◌, refl, sym, ap, ◌∙◌, false, List, [], ◌∷◌, Option, none, some, length, ◌==◌, if◌then◌else◌,
  bytes_equal, Bool-cases, inl, inr, arith,
}
use layer.State.Keys.{
  Entry, compare_bytes, Before-flip, compare_bytes→eq, compare_cases, lookup, Above, IsSorted,
  Above-trans, lookup-first,
}

unfoldable pub merge : List Entry → List Entry → List Entry
merge [] bs = bs
merge (m ∷ ms) [] = m ∷ ms
merge (m ∷ ms) (b ∷ bs) = elim (compare_bytes m.0 b.0) [
  | lt ↦ m ∷ merge ms (b ∷ bs)
  | eq ↦ m ∷ merge ms bs
  | gt ↦ b ∷ merge (m ∷ ms) bs
]

-- The entries that are no deletions.
unfoldable pub live : List Entry → List Entry
live [] = []
live (e ∷ es) = let rest = live es in if length e.1 == 0 then rest else e ∷ rest

-- A value of no bytes is no value.
unfoldable pub live_value : Option (List ℕ) → Option (List ℕ)
live_value none = none
live_value (some v) = if length v == 0 then none else some v

-- The memory table's value, where it has one.
unfoldable pub shadowed : Option (List ℕ) → Option (List ℕ) → Option (List ℕ)
shadowed none b = b
shadowed (some v) b = some v

pub merge-lt :
    (m b : Entry) (ms bs : List Entry)
    → compare_bytes m.0 b.0 ≡ lt
    → merge (m ∷ ms) (b ∷ bs) ≡ m ∷ merge ms (b ∷ bs)
unfolding merge
merge-lt m b ms bs h = ground arith

pub merge-eq :
    (m b : Entry) (ms bs : List Entry)
    → compare_bytes m.0 b.0 ≡ eq
    → merge (m ∷ ms) (b ∷ bs) ≡ m ∷ merge ms bs
unfolding merge
merge-eq m b ms bs h = ground arith

pub merge-gt :
    (m b : Entry) (ms bs : List Entry)
    → compare_bytes m.0 b.0 ≡ gt
    → merge (m ∷ ms) (b ∷ bs) ≡ b ∷ merge (m ∷ ms) bs
unfolding merge
merge-gt m b ms bs h = ground arith

pub merge-nil : (ms : List Entry) → merge ms [] ≡ ms
unfolding merge
merge-nil [] = refl
merge-nil (m ∷ ms) = refl

merge-Above : (k : List ℕ) (ms bs : List Entry) → Above k ms → Above k bs → Above k (merge ms bs)
unfolding merge
merge-Above k [] bs hm hb = hb
merge-Above k (m ∷ ms) [] hm hb = hm
merge-Above k (m ∷ ms) (b ∷ bs) (hm, hms) (hb, hbs) = elim (compare_cases m.0 b.0) [
  | inl e ↦ rw (merge-lt m b ms bs e) (hm, merge-Above k ms (b ∷ bs) hms (hb, hbs))
  | inr (inl e) ↦ rw (merge-eq m b ms bs e) (hm, merge-Above k ms bs hms hbs)
  | inr (inr e) ↦ rw (merge-gt m b ms bs e) (hb, merge-Above k (m ∷ ms) bs (hm, hms) hbs)
]

pub merge-IsSorted : (ms bs : List Entry) → IsSorted ms → IsSorted bs → IsSorted (merge ms bs)
unfolding merge
merge-IsSorted [] bs sm sb = sb
merge-IsSorted (m ∷ ms) [] sm sb = sm
merge-IsSorted (m ∷ ms) (b ∷ bs) (am, sm) (ab, sb) = elim (compare_cases m.0 b.0) [
  | inl e ↦ rw (merge-lt m b ms bs e) (
    merge-Above m.0 ms (b ∷ bs) am (e, Above-trans m.0 b.0 bs e ab),
    merge-IsSorted ms (b ∷ bs) sm (ab, sb),
  )
  | inr (inl e) ↦
      let same = compare_bytes→eq m.0 b.0 e in
      rw (merge-eq m b ms bs e) (merge-Above m.0 ms bs am (rw same ab), merge-IsSorted ms bs sm sb)
  | inr (inr e) ↦
      let before = Before-flip m.0 b.0 e in
      rw (merge-gt m b ms bs e) (
        merge-Above b.0 (m ∷ ms) bs (before, Above-trans b.0 m.0 ms before am) ab,
        merge-IsSorted (m ∷ ms) bs (am, sm) sb,
      )
]

shadowed-none : (o : Option (List ℕ)) → shadowed o none ≡ o
unfolding shadowed
shadowed-none none = refl
shadowed-none (some v) = refl

pub lookup-merge :
    (k : List ℕ) (ms bs : List Entry)
    → IsSorted ms
    → IsSorted bs
    → lookup k (merge ms bs) ≡ shadowed (lookup k ms) (lookup k bs)
unfolding merge shadowed
lookup-merge k [] bs sm sb = refl
lookup-merge k (m ∷ ms) [] sm sb = sym (shadowed-none (lookup k (m ∷ ms)))
lookup-merge k (m ∷ ms) (b ∷ bs) (am, sm) (ab, sb) = elim (compare_cases m.0 b.0) [
  | inl e ↦ rw (merge-lt m b ms bs e) (elim (Bool-cases (bytes_equal m.0 k)) [
    | inl h ↦ rw h
    | inr h ↦ rw h (lookup-merge k ms (b ∷ bs) sm (ab, sb))
  ])
  | inr (inl e) ↦ rw (merge-eq m b ms bs e) (elim (Bool-cases (bytes_equal m.0 k)) [
    | inl h ↦ rw h
    | inr h ↦
        let apart : bytes_equal b.0 k ≡ false = rw (compare_bytes→eq m.0 b.0 e) at h in
        rw (h, apart) (lookup-merge k ms bs sm sb)
  ])
  | inr (inr e) ↦ rw (merge-gt m b ms bs e) (elim (Bool-cases (bytes_equal b.0 k)) [
    | inl h ↦
        let before = Before-flip m.0 b.0 e in
        let hidden : lookup k (m ∷ ms) ≡ none =
          lookup-first b (m ∷ ms) k (before, Above-trans b.0 m.0 ms before am) h in
        let here : lookup k (b ∷ bs) ≡ some b.1 = rw h in
        let found : lookup k (b ∷ merge (m ∷ ms) bs) ≡ some b.1 = rw h in
        found ∙ sym (ap (λ o. shadowed o (lookup k (b ∷ bs))) hidden ∙ here)
    | inr h ↦ rw h (lookup-merge k (m ∷ ms) bs (am, sm) sb)
  ])
]

live-Above : (k : List ℕ) (es : List Entry) → Above k es → Above k (live es)
unfolding live
live-Above k [] h = tt
live-Above k (e ∷ es) (h, hs) = elim (Bool-cases (length e.1 == 0)) [
  | inl z ↦ rw z (live-Above k es hs)
  | inr z ↦ rw z (h, live-Above k es hs)
]

pub live-IsSorted : (es : List Entry) → IsSorted es → IsSorted (live es)
unfolding live
live-IsSorted [] h = tt
live-IsSorted (e ∷ es) (a, s) = elim (Bool-cases (length e.1 == 0)) [
  | inl z ↦ rw z (live-IsSorted es s)
  | inr z ↦ rw z (live-Above e.0 es a, live-IsSorted es s)
]

pub lookup-live :
    (k : List ℕ) (es : List Entry) → IsSorted es → lookup k (live es) ≡ live_value (lookup k es)
unfolding live live_value
lookup-live k [] h = refl
lookup-live k (e ∷ es) (a, s) = elim (Bool-cases (length e.1 == 0)) [
  | inl z ↦ elim (Bool-cases (bytes_equal e.0 k)) [
    | inl h ↦ rw (z, h, z) (lookup-live k es s ∙ ap live_value (lookup-first e es k a h))
    | inr h ↦ rw (z, h) (lookup-live k es s)
  ]
  | inr z ↦ elim (Bool-cases (bytes_equal e.0 k)) [
    | inl h ↦ rw (z, h, z)
    | inr h ↦ rw (z, h) (lookup-live k es s)
  ]
]
