-- ===== src/Common/Source/Bounds.antt =====
-- A read stays inside the data: the slice expressions of the source never panic.
use layer.Base.{
  ◌==◌, All-take, All-drop, All-get_elem?, ◌∙◌, Option-cases, get_elem?, get_elem?-some-lt, All,
  slice, [], ◌∷◌, ap, sym, min, suc, zero, ℕ, ◌+◌, ◌-◌, ◌^◌, ◌≤◌, ◌<◌, ◌≡◌, refl, Bool, true, false,
  ◌⊎◌, inl, inr, Bool-cases, List, ◌++◌, length, take, drop, arith, take-append-drop, length-take,
  length-drop, ltb,
}
use native.Mathlib.Nat.{one-le-pow}
use layer.Common.Words.{IsByte, le_value-lt}
use layer.Common.SafeMath.{u64_mod, safe_add}
use layer.Common.Source.{
  ZeroCopySource, unread, read_end, next_bytes, next_byte, next_word, next_uint16, next_uint32,
  next_uint64, finish_var_uint, next_var_uint, next_var_bytes, finish_var_bytes,
}

-- The offset lies in the data, and the data in memory.
pub record IsValid (src : ZeroCopySource) : Type 0 where
  pub in_range : src.off ≤ length src.s
  pub in_memory : length src.s < 0x8000_0000_0000_0000

-- `src'` reads the same data, at or behind the place of `src`.
pub record Advances (src src' : ZeroCopySource) : Type 0 where
  pub same : src'.s ≡ src.s
  pub forward : src.off ≤ src'.off
  pub in_range : src'.off ≤ length src.s

read_end_cases :
    (src : ZeroCopySource) (n : ℕ)
    → IsValid src
    → n < u64_mod
    → ((src.off + n ≤ length src.s) × (read_end src n ≡ (src.off + n, false)))
      ⊎ ((length src.s < src.off + n) × (read_end src n ≡ (length src.s, true)))
unfolding read_end safe_add
read_end_cases src n v h = elim (Bool-cases (ltb (length src.s) (src.off + n))) [
  | inl past ↦ inr (ground arith, ground arith)
  | inr fits ↦ inl (ground arith, ground arith)
]

read_end-Advances :
    (src : ZeroCopySource) (n : ℕ)
    → IsValid src
    → n < u64_mod
    → Advances src (record src { off = (read_end src n).0 })
read_end-Advances src n v h = elim (read_end_cases src n v h) [
  | inl (fits, e) ↦ rw e (record { same = refl; forward = omega arith; in_range = omega arith })
  | inr (past, e) ↦ rw e (record { same = refl; forward = v.in_range; in_range = omega arith })
]

drop_nil : {A : Type 0} (k : ℕ) → ◌≡◌ {A = List A} (drop k []) []
drop_nil zero = refl
drop_nil (suc k) = refl

drop-drop : {A : Type 0} (n m k : ℕ) (xs : List A) → k ≡ n + m → drop m (drop n xs) ≡ drop k xs
drop-drop zero m k xs h = ap (λ i. drop i xs) (omega arith)
drop-drop (suc n) zero k [] h = sym (drop_nil k)
drop-drop (suc n) (suc m) k [] h = sym (drop_nil k)
drop-drop (suc n) m zero (x ∷ xs) h = absurd (omega arith)
drop-drop (suc n) m (suc k) (x ∷ xs) h = drop-drop n m k xs (omega arith)

slice-append-drop :
    {A : Type 0} (xs : List A) (i j : ℕ) → i ≤ j → slice xs i j ++ drop j xs ≡ drop i xs
slice-append-drop xs i j h =
    rw (← drop-drop i (j - i) j xs (omega arith)) (take-append-drop (j - i) (drop i xs))

unread-eq : (src : ZeroCopySource) → unread src ≡ length src.s - src.off
unfolding unread
unread-eq src = ground arith

-- On a valid source and for any n below 2 ^ 64, `NextBytes` moves forward inside the data, gives
-- the bytes that it moved over, n of them or all that are left, and says eof exactly where fewer
-- than n are left.
pub next_bytes_lem :
    (src : ZeroCopySource) (n : ℕ)
    → IsValid src
    → n < u64_mod
    → let (buf, eof, src') = next_bytes src n in
      Advances src src'
      × (buf ++ drop src'.off src'.s ≡ drop src.off src.s)
      × (length buf ≡ min n (unread src))
      × (eof ≡ ltb (unread src) n)
unfolding next_bytes
next_bytes_lem src n v h = (
  adv,
  slice-append-drop src.s src.off (read_end src n).0 adv.forward,
  elim (read_end_cases src n v h) [
    | inl (fits, e) ↦ rw e (omega (arith, sizes (src.off + n - src.off), unread-eq src))
    | inr (past, e) ↦ rw e (omega (arith, sizes (length src.s - src.off), unread-eq src))
  ],
  elim (read_end_cases src n v h) [
    | inl (fits, e) ↦ rw e (ground (arith, unread-eq src))
    | inr (past, e) ↦ rw e (ground (arith, unread-eq src))
  ],
)
  where
    adv : Advances src (record src { off = (read_end src n).0 })
    adv = read_end-Advances src n v h

    sizes : (k : ℕ) → length (take k (drop src.off src.s)) ≡ min k (length src.s - src.off)
    sizes k = omega (arith, length-take k (drop src.off src.s), length-drop src.off src.s)

pub IsValid-Advances : {src src' : ZeroCopySource} → IsValid src → Advances src src' → IsValid src'
IsValid-Advances v a = record {
  in_range = omega (arith, a.in_range, ap length a.same);
  in_memory = omega (arith, v.in_memory, ap length a.same);
}

Advances-trans : {a b c : ZeroCopySource} → Advances a b → Advances b c → Advances a c
Advances-trans p q = record {
  same = q.same ∙ p.same;
  forward = omega (arith, p.forward, q.forward);
  in_range = omega (arith, q.in_range, ap length p.same);
}

Advances-refl : (src : ZeroCopySource) → IsValid src → Advances src src
Advances-refl src v = record { same = refl; forward = omega arith; in_range = v.in_range }

next_byte-Advances : (src : ZeroCopySource) → IsValid src → Advances src (next_byte src).2
unfolding next_byte
next_byte-Advances src v = elim (Option-cases (get_elem? src.s src.off)) [
  | inl e ↦ rw (e, next_byte) (Advances-refl src v)
  | inr (b, e) ↦
      rw (e, next_byte)
        (record {
          same = refl;
          forward = omega arith;
          in_range = omega (arith, get_elem?-some-lt src.s src.off e);
        })
]

next_byte-lt : (src : ZeroCopySource) → All IsByte src.s → (next_byte src).0 < 256
unfolding next_byte
next_byte-lt src bs = elim (Option-cases (get_elem? src.s src.off)) [
  | inl e ↦ rw (e, next_byte) (omega arith)
  | inr (b, e) ↦ rw (e, next_byte) (All-get_elem? IsByte src.s src.off bs e)
]

next_word-Advances :
    (k : ℕ) (src : ZeroCopySource) → IsValid src → k < u64_mod → Advances src (next_word k src).2
unfolding next_word
next_word-Advances k src v h =
    let adv = (next_bytes_lem src k v h).0 in
    elim (Bool-cases (next_bytes src k).1) [ inl e ↦ rw e adv | inr e ↦ rw e adv ]

-- A word's value fits its bytes, at the end of the data too.
next_word-lt :
    (k : ℕ) (src : ZeroCopySource)
    → IsValid src
    → k < u64_mod
    → All IsByte src.s
    → (next_word k src).0 < 256 ^ k
unfolding next_word
next_word-lt k src v h bs = elim (Bool-cases (next_bytes src k).1) [
  | inl e ↦ rw e (omega (arith, one-le-pow k 256))
  | inr e ↦ rw e (le_value-lt k (next_bytes src k).0 (whole e) read)
]
  where
    facts :
        (length (next_bytes src k).0 ≡ min k (unread src))
        × ((next_bytes src k).1 ≡ ltb (unread src) k)
    facts = let (_, _, a, b) = next_bytes_lem src k v h in (a, b)

    whole : (next_bytes src k).1 ≡ false → length (next_bytes src k).0 ≡ k
    whole e = ground (arith, facts)

    read : All IsByte (next_bytes src k).0
    read =
        unfold next_bytes in
        All-take IsByte _ (drop src.off src.s) (All-drop IsByte src.off src.s bs)

finish_var_uint-source :
    (size : ℕ) (w : ℕ × Bool × ZeroCopySource) → (finish_var_uint size w).source ≡ w.2
unfolding finish_var_uint
finish_var_uint-source size (val, true, src) = refl
finish_var_uint-source size (val, false, src) = refl

finish_var_uint-le :
    (size : ℕ) (w : ℕ × Bool × ZeroCopySource) → (finish_var_uint size w).value ≤ w.0
unfolding finish_var_uint
finish_var_uint-le size (val, true, src) = omega arith
finish_var_uint-le size (val, false, src) = omega arith

-- A variable-length number is a uint64, and reading one moves forward inside the data.
pub next_var_uint-Advances :
    (src : ZeroCopySource)
    → IsValid src
    → All IsByte src.s
    → Advances src (next_var_uint src).source × ((next_var_uint src).value < u64_mod)
unfolding next_var_uint next_uint16 next_uint32 next_uint64
next_var_uint-Advances src v bs = elim (Bool-cases (next_byte src).1) [
  | inl end ↦ rw end (finish 0 (0, true, src1) adv (omega arith))
  | inr more ↦ rw more (elim (Bool-cases ((next_byte src).0 == 0xfd)) [
    | inl e ↦ rw e (word 2 3 (omega arith) (omega arith))
    | inr e ↦ rw e (elim (Bool-cases ((next_byte src).0 == 0xfe)) [
      | inl f ↦ rw f (word 4 5 (omega arith) (omega arith))
      | inr f ↦ rw f (elim (Bool-cases ((next_byte src).0 == 0xff)) [
        | inl g ↦ rw g (word 8 9 (omega arith) (omega arith))
        | inr g ↦
            rw g
              (finish 1 ((next_byte src).0, false, src1) adv (omega (arith, next_byte-lt src bs)))
      ])
    ])
  ])
]
  where
    src1 : ZeroCopySource
    src1 = (next_byte src).2

    adv : Advances src src1
    adv = next_byte-Advances src v

    bs1 : All IsByte src1.s
    bs1 = rw adv.same bs

    finish :
        (size : ℕ) (w : ℕ × Bool × ZeroCopySource)
        → Advances src w.2
        → w.0 < u64_mod
        → Advances src (finish_var_uint size w).source × ((finish_var_uint size w).value < u64_mod)
    finish size w a h =
        (rw (finish_var_uint-source size w) a, omega (arith, finish_var_uint-le size w, h))

    word :
        (k size : ℕ)
        → k < u64_mod
        → 256 ^ k ≤ u64_mod
        → Advances src (finish_var_uint size (next_word k src1)).source
          × ((finish_var_uint size (next_word k src1)).value < u64_mod)
    word k size h fits =
        let v1 = IsValid-Advances v adv in
        finish size (next_word k src1) (Advances-trans adv (next_word-Advances k src1 v1 h))
          (omega (arith, next_word-lt k src1 v1 h bs1, fits))

-- On a valid source of any bytes, `NextVarBytes` leaves a source of the same data that stands at
-- or behind the old place and not behind the end.
pub next_var_bytes-Advances :
    (src : ZeroCopySource)
    → IsValid src
    → All IsByte src.s
    → Advances src (next_var_bytes src).source
unfolding next_var_bytes finish_var_bytes
next_var_bytes-Advances src v bs =
    let (adv, fits) = next_var_uint-Advances src v bs in
    let r = next_var_uint src in
    let adv' = (next_bytes_lem r.source r.value (IsValid-Advances v adv) fits).0 in
    elim (Bool-cases (ltb 0 r.value)) [ inl e ↦ rw e (Advances-trans adv adv') | inr e ↦ rw e adv ]
