-- ===== src/State/Iterator/Join.antt =====
-- The joined iterator visits the merged entries that are no deletions.
use Prim.Native.Nat.{Ordering}
use Prim.Native.Nat.Ordering.{lt, eq, gt}
use mathlib.Core.Path.{subst}
use layer.Base.{
  ℕ, zero, suc, ◌+◌, ◌<◌, ◌≤◌, ◌≡◌, refl, sym, ap, ◌∙◌, Bool, true, false, not, List, [], ◌∷◌,
  length, ◌==◌, if◌then◌else◌, Bool-cases, inl, inr, arith,
}
use layer.State.Keys.{Entry, compare_bytes, compare_cases, Before, Above, IsSorted, lookup}
use layer.State.Iterator.{
  StoreIterator, JoinIter, moves_mem, moves_back, key_at, value_at, tail, more, advance,
  new_join_iter, error, stand_mem, stand_back, stand_by, stand_smaller, stand_first, stand_next,
  first_entry, next_entry, skip_deleted, first, next, visit,
}
use layer.State.Iterator.Merge.{
  merge, merge-lt, merge-eq, merge-gt, merge-nil, live, live_value, shadowed, merge-IsSorted,
  lookup-merge, live-IsSorted, lookup-live,
}

-- The entry at the front of `es` and those behind it: past the end, one of no bytes.
padded : List Entry → List Entry
padded es = (key_at es, value_at es) ∷ tail es

-- What an iterator gives as long as its end is not known, and what it will give from where it
-- stands, if the next step moves it.
front : Bool → List Entry → List Entry
front true es = []
front false es = padded es

pending : Bool → Bool → List Entry → List Entry
pending true moves es = []
pending false true es = tail es
pending false false es = padded es

front-tail : (es : List Entry) → front (not (more es)) es ≡ es
unfolding front padded
front-tail [] = refl
front-tail (e ∷ es) = refl

front-advance :
    {I : Type 0} (it : StoreIterator I) (moves ended : Bool) (i : I)
    → (let step = advance it moves ended i in front step.0 (it.ahead step.1))
      ≡ pending ended moves (it.ahead i)
unfolding advance front pending
front-advance it true true i = refl
front-advance it false true i = refl
front-advance it true false i =
    rw (it.found-next i, it.ahead-next i) (front-tail (tail (it.ahead i)))
front-advance it false false i = refl

length-merge : (ms bs : List Entry) → length (merge ms bs) ≤ length ms + length bs
unfolding merge
length-merge [] bs = omega arith
length-merge (m ∷ ms) [] = omega arith
length-merge (m ∷ ms) (b ∷ bs) = elim (compare_cases m.0 b.0) [
  | inl e ↦ rw (merge-lt m b ms bs e) (omega (arith, length-merge ms (b ∷ bs)))
  | inr (inl e) ↦ rw (merge-eq m b ms bs e) (omega (arith, length-merge ms bs))
  | inr (inr e) ↦ rw (merge-gt m b ms bs e) (omega (arith, length-merge (m ∷ ms) bs))
]

-- A key behind another has a byte.
blank_first : (j k : List ℕ) → Before j k → Before [] k
unfolding compare_bytes
blank_first [] [] h = h
blank_first (x ∷ j) [] h = cc
blank_first j (y ∷ k) h = refl

blank_behind : (j k : List ℕ) → Before j k → compare_bytes k [] ≡ gt
unfolding compare_bytes
blank_behind [] [] h = cc
blank_behind (x ∷ j) [] h = cc
blank_behind j (y ∷ k) h = refl

-- The entry of no bytes that is seen where only one of the two has entries.
live-merge_blank_left :
    (k : List ℕ) (bs : List Entry) → Above k bs → live (merge (padded []) bs) ≡ live bs
unfolding padded merge live
live-merge_blank_left k [] h = refl
live-merge_blank_left k (b ∷ bs) (h, hs) = rw (merge-lt ([], []) b [] bs (blank_first k b.0 h)) refl

live-merge_blank_right :
    (k : List ℕ) (ms : List Entry) → Above k ms → live (merge ms (padded [])) ≡ live ms
unfolding padded merge live
live-merge_blank_right k [] h = refl
live-merge_blank_right k (m ∷ ms) (h, hs) =
    rw (merge-gt m ([], []) ms [] (blank_behind k m.0 h)) refl

-- What is seen from the first entry on.
joined : List Entry → List Entry → List Entry
joined [] [] = []
joined (m ∷ ms) [] = m ∷ merge ms (padded [])
joined [] (b ∷ bs) = b ∷ merge (padded []) bs
joined (m ∷ ms) (b ∷ bs) = merge (m ∷ ms) (b ∷ bs)

length-joined : (ms bs : List Entry) → length (joined ms bs) ≤ length ms + length bs + 1
unfolding joined padded
length-joined [] [] = omega arith
length-joined (m ∷ ms) [] = omega (arith, length-merge ms (padded []))
length-joined [] (b ∷ bs) = omega (arith, length-merge (padded []) bs)
length-joined (m ∷ ms) (b ∷ bs) = omega (arith, length-merge (m ∷ ms) (b ∷ bs))

live-joined :
    (ms bs : List Entry) → IsSorted ms → IsSorted bs → live (joined ms bs) ≡ live (merge ms bs)
unfolding joined live merge
live-joined [] [] sm sb = refl
live-joined (m ∷ ms) [] (a, sm) sb =
    ap (λ es. if length m.1 == 0 then es else m ∷ es) (live-merge_blank_right m.0 ms a)
live-joined [] (b ∷ bs) sm (a, sb) =
    ap (λ es. if length b.1 == 0 then es else b ∷ es) (live-merge_blank_left b.0 bs a)
live-joined (m ∷ ms) (b ∷ bs) sm sb = refl

module _ {M B : Type 0} (mem : StoreIterator M) (back : StoreIterator B) where
  mem_pending : JoinIter M B → List Entry
  mem_pending iter = pending iter.next_mem_end (moves_mem iter.key_origin) (mem.ahead iter.memdb)

  back_pending : JoinIter M B → List Entry
  back_pending iter =
      pending iter.next_back_end (moves_back iter.key_origin) (back.ahead iter.backend)

  -- The entry where the iterator stands, and what is to come.
  shown : Bool × JoinIter M B → List Entry
  shown (false, iter) = []
  shown (true, iter) = (iter.key, iter.value) ∷ merge (mem_pending iter) (back_pending iter)

  -- Where no end is known yet.
  module _ (iter : JoinIter M B) (hm : iter.next_mem_end ≡ false)
      (hb : iter.next_back_end ≡ false) where
    shown-stand_by :
        (o : Ordering)
        → compare_bytes (key_at (mem.ahead iter.memdb)) (key_at (back.ahead iter.backend)) ≡ o
        → shown (stand_by mem back o iter)
          ≡ merge (padded (mem.ahead iter.memdb)) (padded (back.ahead iter.backend))
    unfolding shown stand_by stand_mem stand_back padded mem_pending back_pending moves_mem
        moves_back pending
    shown-stand_by lt e =
        rw (hm, hb, mem.key_lem iter.memdb, mem.value_lem iter.memdb)
          (sym (
            merge-lt (key_at (mem.ahead iter.memdb), value_at (mem.ahead iter.memdb))
              (key_at (back.ahead iter.backend), value_at (back.ahead iter.backend))
              (tail (mem.ahead iter.memdb)) (tail (back.ahead iter.backend)) e))
    shown-stand_by eq e =
        rw (hm, hb, mem.key_lem iter.memdb, mem.value_lem iter.memdb)
          (sym (
            merge-eq (key_at (mem.ahead iter.memdb), value_at (mem.ahead iter.memdb))
              (key_at (back.ahead iter.backend), value_at (back.ahead iter.backend))
              (tail (mem.ahead iter.memdb)) (tail (back.ahead iter.backend)) e))
    shown-stand_by gt e =
        rw (hm, hb, back.key_lem iter.backend, back.value_lem iter.backend)
          (sym (
            merge-gt (key_at (mem.ahead iter.memdb), value_at (mem.ahead iter.memdb))
              (key_at (back.ahead iter.backend), value_at (back.ahead iter.backend))
              (tail (mem.ahead iter.memdb)) (tail (back.ahead iter.backend)) e))

    shown-stand_smaller :
        shown (stand_smaller mem back iter)
        ≡ merge (padded (mem.ahead iter.memdb)) (padded (back.ahead iter.backend))
    unfolding stand_smaller
    shown-stand_smaller =
        rw (mem.key_lem iter.memdb, back.key_lem iter.backend)
          (shown-stand_by
            (compare_bytes (key_at (mem.ahead iter.memdb)) (key_at (back.ahead iter.backend))) refl)

  shown-stand_next :
      (fb fm : Bool) (iter : JoinIter M B)
      → iter.next_back_end ≡ fb
      → iter.next_mem_end ≡ fm
      → shown (stand_next mem back fb fm iter)
        ≡ merge (front fm (mem.ahead iter.memdb)) (front fb (back.ahead iter.backend))
  unfolding stand_next shown stand_mem stand_back mem_pending back_pending moves_mem moves_back
      pending front padded merge
  shown-stand_next true true iter hb hm = refl
  shown-stand_next true false iter hb hm =
      rw (hm, hb, mem.key_lem iter.memdb, mem.value_lem iter.memdb)
        (ap (λ es. (key_at (mem.ahead iter.memdb), value_at (mem.ahead iter.memdb)) ∷ es)
          (merge-nil (tail (mem.ahead iter.memdb))))
  shown-stand_next false true iter hb hm =
      rw (hm, hb, back.key_lem iter.backend, back.value_lem iter.backend) refl
  shown-stand_next false false iter hb hm = shown-stand_smaller iter hm hb

  module _ (mem_fine : (i : M) → mem.failed i ≡ false)
      (back_fine : (i : B) → back.failed i ≡ false) where
    error-false : (iter : JoinIter M B) → error mem back iter ≡ false
    unfolding error
    error-false iter = rw (mem_fine iter.memdb, back_fine iter.backend)

    shown-next_entry :
        (iter : JoinIter M B)
        → shown (next_entry mem back iter) ≡ merge (mem_pending iter) (back_pending iter)
    unfolding next_entry mem_pending back_pending
    shown-next_entry iter =
        let m = advance mem (moves_mem iter.key_origin) iter.next_mem_end iter.memdb in
        let b = advance back (moves_back iter.key_origin) iter.next_back_end iter.backend in
        let moved : JoinIter M B = record iter {
          backend = b.1;
          memdb = m.1;
          next_mem_end = m.0;
          next_back_end = b.0;
        } in
        rw (error-false moved) (
          shown-stand_next b.0 m.0 moved refl refl
          ∙ ap (λ x. merge x (front b.0 (back.ahead b.1)))
              (front-advance mem (moves_mem iter.key_origin) iter.next_mem_end iter.memdb)
          ∙ ap (merge (mem_pending iter))
              (front-advance back (moves_back iter.key_origin) iter.next_back_end iter.backend))

    -- From `r` to `r'` nothing but deletions is passed, and `r'` stands on none.
    abbrev Skipped : Bool × JoinIter M B → Bool × JoinIter M B → Type 0
    Skipped r r' =
        (live (shown r') ≡ live (shown r))
        × (length (shown r') ≤ length (shown r))
        × (r'.0 ≡ true → (length r'.1.value == 0) ≡ false)

    length-shown_next :
        (iter : JoinIter M B)
        → suc (length (shown (next_entry mem back iter))) ≡ length (shown (true, iter))
    unfolding shown
    length-shown_next iter = ap (λ es. suc (length es)) (shown-next_entry iter)

    live-shown_deleted :
        (iter : JoinIter M B)
        → (length iter.value == 0) ≡ true
        → live (shown (next_entry mem back iter)) ≡ live (shown (true, iter))
    unfolding shown live
    live-shown_deleted iter z = rw z (ap live (shown-next_entry iter))

    live-shown :
        (iter : JoinIter M B)
        → (length iter.value == 0) ≡ false
        → (iter.key, iter.value) ∷ live (shown (next_entry mem back iter))
          ≡ live (shown (true, iter))
    unfolding shown live
    live-shown iter z = rw z (ap (λ es. (iter.key, iter.value) ∷ live es) (shown-next_entry iter))

    skip_deleted-Skipped :
        (fuel : ℕ) (r : Bool × JoinIter M B)
        → length (shown r) < fuel
        → Skipped r (skip_deleted mem back fuel r)
    unfolding skip_deleted
    skip_deleted-Skipped zero r h = absurd (omega arith)
    skip_deleted-Skipped (suc fuel) (false, iter) h = (refl, omega arith, λ e. cc)
    skip_deleted-Skipped (suc fuel) (true, iter) h = elim (Bool-cases (length iter.value == 0)) [
      | inl z ↦
          let passed : skip_deleted mem back (suc fuel) (true, iter)
              ≡ skip_deleted mem back fuel (next_entry mem back iter) =
            rw z refl in
          let shorter = length-shown_next iter in
          let ih = skip_deleted-Skipped fuel (next_entry mem back iter) (omega arith) in
          subst (Skipped (true, iter)) (sym passed)
            (ih.0 ∙ live-shown_deleted iter z, omega (arith, ih.1), ih.2)
      | inr z ↦
          let kept : skip_deleted mem back (suc fuel) (true, iter) ≡ (true, iter) = rw z refl in
          subst (Skipped (true, iter)) (sym kept) (refl, omega arith, λ e. z)
    ]

    visit-live :
        (fuel rounds : ℕ) (r : Bool × JoinIter M B)
        → (r.0 ≡ true → (length r.1.value == 0) ≡ false)
        → length (shown r) < rounds
        → length (shown r) < suc fuel
        → visit mem back fuel rounds r ≡ live (shown r)
    unfolding visit next
    visit-live fuel zero r n h f = absurd (omega arith)
    visit-live fuel (suc rounds) (false, iter) n h f = unfold shown live in refl
    visit-live fuel (suc rounds) (true, iter) n h f =
        let shorter = length-shown_next iter in
        let ahead = next_entry mem back iter in
        let skipped = skip_deleted-Skipped fuel ahead (omega arith) in
        let rest =
          visit-live fuel rounds (skip_deleted mem back fuel ahead) skipped.2
            (omega (arith, skipped.1)) (omega (arith, skipped.1)) in
        ap (λ es. (iter.key, iter.value) ∷ es) (rest ∙ skipped.0) ∙ live-shown iter (n refl)

    shown-stand_first :
        (ms bs : List Entry) (iter : JoinIter M B)
        → iter.next_mem_end ≡ false
        → iter.next_back_end ≡ false
        → mem.ahead iter.memdb ≡ ms
        → back.ahead iter.backend ≡ bs
        → shown (stand_first mem back (more bs) (more ms) iter) ≡ joined ms bs
    unfolding stand_first stand_mem stand_back shown joined mem_pending back_pending moves_mem
        moves_back pending padded
    shown-stand_first [] [] iter hm hb em eb = refl
    shown-stand_first (m ∷ ms) [] iter hm hb em eb =
        rw (hm, hb, mem.key_lem iter.memdb, mem.value_lem iter.memdb, em, eb) refl
    shown-stand_first [] (b ∷ bs) iter hm hb em eb =
        rw (hm, hb, back.key_lem iter.backend, back.value_lem iter.backend, em, eb) refl
    shown-stand_first (m ∷ ms) (b ∷ bs) iter hm hb em eb =
        rw em at (rw eb at (shown-stand_smaller iter hm hb))

    shown-first_entry :
        (m : M) (b : B)
        → shown (first_entry mem back (new_join_iter mem back m b))
          ≡ joined (mem.all m) (back.all b)
    unfolding first_entry new_join_iter
    shown-first_entry m b =
        let moved : JoinIter M B = record (new_join_iter mem back m b) {
          backend = (back.first b).1;
          memdb = (mem.first m).1;
        } in
        rw (error-false moved, mem.found-first m, back.found-first b)
          (shown-stand_first (mem.all m) (back.all b) moved refl refl (mem.ahead-first m)
            (back.ahead-first b))

    -- Over two iterators that range over ascending keys and never fail, with more fuel than they
    -- have entries and one, the entries that `First` and `Next` visit ascend, and every key has
    -- among them the memory table's value, where the table has an entry of it, or else the
    -- store's, and none where that is of no bytes.
    pub visit-lookup :
        (m : M) (b : B) (fuel : ℕ)
        → IsSorted (mem.all m)
        → IsSorted (back.all b)
        → length (mem.all m) + length (back.all b) + 1 < fuel
        → (let visited =
              visit mem back fuel fuel (first mem back fuel (new_join_iter mem back m b)) in
            IsSorted visited
            × ((k : List ℕ)
                → lookup k visited
                  ≡ live_value (shadowed (lookup k (mem.all m)) (lookup k (back.all b)))))
    unfolding first
    visit-lookup m b fuel sm sb h =
        let start = first_entry mem back (new_join_iter mem back m b) in
        let shows = shown-first_entry m b in
        let short = length-joined (mem.all m) (back.all b) in
        let size : length (shown start) ≤ length (mem.all m) + length (back.all b) + 1 =
          rw shows short in
        let skipped = skip_deleted-Skipped fuel start (omega arith) in
        let all = merge (mem.all m) (back.all b) in
        let visited : visit mem back fuel fuel (skip_deleted mem back fuel start) ≡ live all =
          visit-live fuel fuel (skip_deleted mem back fuel start) skipped.2
            (omega (arith, skipped.1)) (omega (arith, skipped.1))
          ∙ skipped.0
          ∙ ap live shows
          ∙ live-joined (mem.all m) (back.all b) sm sb in
        let sorted = merge-IsSorted (mem.all m) (back.all b) sm sb in
        rw visited (
          live-IsSorted all sorted,
          λ k.
              lookup-live k all sorted
              ∙ ap live_value (lookup-merge k (mem.all m) (back.all b) sm sb),
        )
