-- ===== src/Common/Source/Codec.antt =====
-- Decoders that take exactly the bytes of a value off the source, and their composition.
use layer.Base.{
  ℕ, ◌≡◌, ap, sym, ◌∙◌, List, [], ◌++◌, append_assoc, append-nil, length, Outcome, ok, ◌>>=◌,
}
use layer.Common.Source.{ZeroCopySource, new_source}
use layer.Common.Source.Reading.{reading, InMemory}

module _ {E : Type 0} where
  -- Wherever the bytes come next in data shorter than 2 ^ 63, the decoder returns the value and
  -- stands behind them.
  abbrev pub Reads :
      {A : Type 0} → (ZeroCopySource → Outcome E (A × ZeroCopySource)) → List ℕ → A → Type 0
  Reads decode p a =
      (pre rest : List ℕ)
      → InMemory (pre ++ (p ++ rest))
      → decode (reading pre (p ++ rest)) ≡ ok (a, reading (pre ++ p) rest)

  pub Reads-nothing : {A : Type 0} (a : A) → Reads (λ source. ok (a, source)) [] a
  Reads-nothing a pre rest m =
      λ i. ok (a, record { s = append-nil-path i ++ rest; off = length (append-nil-path i) })
    where
      append-nil-path : pre ≡ pre ++ []
      append-nil-path = sym (append-nil pre)

  -- One decoder after the other: `next` takes the value and the source behind it.
  pub Reads-then :
      {A B : Type 0} (d : ZeroCopySource → Outcome E (A × ZeroCopySource))
      (next : A × ZeroCopySource → Outcome E (B × ZeroCopySource)) {p q : List ℕ} {a : A} {b : B}
      → Reads d p a
      → Reads (λ source. next (a, source)) q b
      → Reads (λ source. d source >>= next) (p ++ q) b
  Reads-then d next {p} {q} {a} {b} hd hn pre rest m =
      let m1 : InMemory (pre ++ (p ++ (q ++ rest))) = rw (append_assoc p q rest) at m in
      let m2 : InMemory ((pre ++ p) ++ (q ++ rest)) = rw (append_assoc pre p (q ++ rest)) m1 in
      rw (append_assoc p q rest, ← append_assoc pre p q)
        (ap (λ r. r >>= next) (hd pre (q ++ rest) m1) ∙ hn (pre ++ p) rest m2)

  -- The last decoder, behind which the source is not moved.
  pub Reads-end :
      {A B : Type 0} (d : ZeroCopySource → Outcome E (A × ZeroCopySource))
      (next : A × ZeroCopySource → Outcome E (B × ZeroCopySource)) {p : List ℕ} {a : A} {b : B}
      → Reads d p a
      → ((source : ZeroCopySource) → next (a, source) ≡ ok (b, source))
      → Reads (λ source. d source >>= next) p b
  Reads-end d next {p} hd same pre rest m =
      ap (λ r. r >>= next) (hd pre rest m) ∙ same (reading (pre ++ p) rest)

  -- At the end of the data.
  pub Reads-last :
      {A : Type 0} (d : ZeroCopySource → Outcome E (A × ZeroCopySource)) {p : List ℕ} {a : A}
      (pre : List ℕ)
      → Reads d p a
      → InMemory (pre ++ p)
      → d (reading pre p) ≡ ok (a, reading (pre ++ p) [])
  Reads-last d {p} {a} pre hd m =
      ap (λ t. d (reading pre t)) (sym (append-nil p)) ∙ hd pre [] (rw (append-nil p) m)

  -- A whole input.
  pub Reads-whole :
      {A : Type 0} (d : ZeroCopySource → Outcome E (A × ZeroCopySource)) {p : List ℕ} {a : A}
      → Reads d p a
      → InMemory p
      → d (new_source p) ≡ ok (a, record { s = p; off = length p })
  unfolding new_source
  Reads-whole d {p} {a} hd m =
      let whole : p ++ [] ≡ p = append-nil p in
      ap (λ t. d (record { s = t; off = 0 })) (sym whole)
      ∙ hd [] [] (rw whole m)
      ∙ ap (λ t. ok (a, record { s = t; off = length p })) whole
