-- ===== src/Ledger/Program/Keys.antt =====
-- The keys of a program are read back.
use layer.Base.{
  ℕ, zero, suc, ◌+◌, ◌-◌, ◌%◌, ◌/◌, ◌<◌, ◌≤◌, ◌≡◌, refl, ◌∙◌, ap, true, false, List, [], ◌∷◌, ◌++◌,
  length, append_assoc, All, Outcome, ok, ◌>>=◌, ◌==◌, leb, arith,
}
use layer.Base.Int.{ℤ, pos}
use layer.Common.BigInt.{big_int_to_neo_bytes, le_digits, little_endian, sign_positive, last_byte}
use layer.Common.Source.{ZeroCopySource}
use layer.Common.Source.Codec.{Reads, Reads-then, Reads-end}
use layer.Ledger.Program.{
  ProgramError, push_prefix, push_num, push1, read_bytes, read_op_code, peek_op_code, read_num,
  read_num_at, is_small_num, read_buffer, read_round, read_buffers, checkmultisig,
}
use layer.Ledger.Program.Reads.{prefix, read_op_code-Reads, peek_op_code-reading, read_bytes-Reads}
use layer.Ledger.Program.Params.{IsPushable, pushes}

-- What is read at the code that was peeked.
Reads-peek :
    {B : Type 0} (next : ℕ × ZeroCopySource → Outcome ProgramError (B × ZeroCopySource)) {c : ℕ}
    {t : List ℕ} {b : B}
    → Reads (λ source. next (c, source)) (c ∷ t) b
    → Reads (λ source. peek_op_code source >>= next) (c ∷ t) b
Reads-peek next {c} {t} h pre rest m =
    ap (λ r. r >>= next) (peek_op_code-reading pre (t ++ rest) c m) ∙ h pre rest m

le_digits_zero : (rounds : ℕ) → le_digits rounds 0 ≡ []
unfolding le_digits
le_digits_zero zero = refl
le_digits_zero (suc rounds) = refl

pub small_bytes : (n : ℕ) → 0 < n → n ≤ 16 → big_int_to_neo_bytes (pos n) ≡ n ∷ []
unfolding big_int_to_neo_bytes little_endian le_digits sign_positive last_byte
small_bytes zero p h = absurd (omega arith)
small_bytes (suc n) p h =
    let nonzero : (suc n == 0) ≡ false = ground arith in
    let low : suc n % 256 ≡ suc n = omega arith in
    let high : suc n / 256 ≡ 0 = omega arith in
    let plus : leb 128 (suc n) ≡ false = ground arith in
    rw (nonzero, le_digits) (rw (low, high, le_digits_zero n, plus) refl)

pub push_num_small : (n : ℕ) → 0 < n → n ≤ 16 → push_num n ≡ ok ((n - 1 + push1) ∷ [])
unfolding push_num
push_num_small n p h = ground arith

-- The test for PUSH1 to PUSH16, and the number that such a code stands for.
small_code :
    (n c : ℕ)
    → 0 < n
    → n ≤ 16
    → c ≡ n - 1 + push1
    → ((c == 0) ≡ false)
      × (is_small_num c ≡ true)
      × (c + 1 - push1 ≡ n)
      × ((c == checkmultisig) ≡ false)
unfolding is_small_num
small_code n c p h e = (ground arith, ground arith, omega arith, ground arith)

read_num_at-Reads :
    (int64 : ℤ → ℤ) (n c : ℕ)
    → 0 < n
    → n ≤ 16
    → c ≡ n - 1 + push1
    → Reads (read_num_at int64 c) (c ∷ []) n
unfolding read_num_at
read_num_at-Reads int64 n c p h e pre rest m =
    let small = small_code n c p h e in
    rw (small.0, small.1, small.2, read_op_code-Reads c pre rest m)

pub read_num-Reads :
    (int64 : ℤ → ℤ) (n : ℕ) → 0 < n → n ≤ 16 → Reads (read_num int64) ((n - 1 + push1) ∷ []) n
unfolding read_num
read_num-Reads int64 n p h =
    Reads-peek (λ code. read_num_at int64 code.0 code.1)
      (read_num_at-Reads int64 n (n - 1 + push1) p h refl)

read_buffer-small :
    (n c : ℕ)
    → 0 < n
    → n ≤ 16
    → c ≡ n - 1 + push1
    → Reads (read_buffer c) (c ∷ []) (big_int_to_neo_bytes (pos n))
unfolding read_buffer
read_buffer-small n c p h e pre rest m =
    let small = small_code n c p h e in
    rw (small.0, small.1, small.2, read_op_code-Reads c pre rest m)

-- A code of pushed data.
read_buffer-data :
    (c : ℕ) {p a : List ℕ} → 0 < c → c < 79 → Reads read_bytes p a → Reads (read_buffer c) p a
unfolding read_buffer is_small_num
read_buffer-data c {p} {a} l h r pre rest m =
    let nonzero : (c == 0) ≡ false = ground arith in
    let large : is_small_num c ≡ false = ground arith in rw (nonzero, large, r pre rest m)

read_round-Reads :
    (again : ZeroCopySource → Outcome ProgramError (List (List ℕ) × ZeroCopySource)) (c : ℕ)
    {p q b : List ℕ} {bs : List (List ℕ)}
    → (c == checkmultisig) ≡ false
    → Reads (read_buffer c) p b
    → Reads again q bs
    → Reads (read_round again c) (p ++ q) (b ∷ bs)
unfolding read_round
read_round-Reads again c e hb hs =
    rw e (Reads-then (read_buffer c) _ hb (Reads-end again _ hs (λ s. refl)))

read_round-end :
    (again : ZeroCopySource → Outcome ProgramError (List (List ℕ) × ZeroCopySource))
    → Reads (read_round again checkmultisig) (checkmultisig ∷ []) []
unfolding read_round
read_round-end again = Reads-end read_op_code _ (read_op_code-Reads checkmultisig) (λ s. refl)

read_buffers-end : (fuel : ℕ) → Reads (read_buffers (suc fuel)) (checkmultisig ∷ []) []
unfolding read_buffers
read_buffers-end fuel =
    Reads-peek (λ code. read_round (read_buffers fuel) code.0 code.1)
      (read_round-end (read_buffers fuel))

read_buffers-small :
    (n fuel : ℕ)
    → 0 < n
    → n ≤ 16
    → Reads
        (read_buffers (suc (suc fuel)))
        ((n - 1 + push1) ∷ (checkmultisig ∷ []))
        (big_int_to_neo_bytes (pos n) ∷ [])
unfolding read_buffers
read_buffers-small n fuel p h =
    let c = n - 1 + push1 in
    let small = small_code n c p h refl in
    Reads-peek (λ code. read_round (read_buffers (suc fuel)) code.0 code.1)
      (read_round-Reads (read_buffers (suc fuel)) c small.3 (read_buffer-small n c p h refl)
        (read_buffers-end fuel))

-- The keys behind the first, their number and the last code.
abbrev pub tail_bytes : List (List ℕ) → ℕ → List ℕ
tail_bytes ps n = pushes ps ++ ((n - 1 + push1) ∷ (checkmultisig ∷ []))

pub read_buffers-Reads :
    (ps : List (List ℕ)) (n fuel : ℕ)
    → All IsPushable ps
    → 0 < n
    → n ≤ 16
    → suc (length ps) < fuel
    → Reads (read_buffers fuel) (tail_bytes ps n) (ps ++ (big_int_to_neo_bytes (pos n) ∷ []))
unfolding read_buffers pushes
read_buffers-Reads ps n zero hs p h f = absurd (omega arith)
read_buffers-Reads [] n (suc zero) hs p h f = absurd (omega arith)
read_buffers-Reads [] n (suc (suc fuel)) hs p h f = read_buffers-small n fuel p h
read_buffers-Reads (q ∷ ps) n (suc fuel) (hq, hs) p h f =
    let front = prefix (length q) hq.0 hq.1 in
    let item = read_buffer-data front.code front.low front.high (read_bytes-Reads q hq.0 hq.1) in
    let not_end : (front.code == checkmultisig) ≡ false = ground (arith, front.high) in
    let rest = read_buffers-Reads ps n fuel hs p h (omega arith) in
    let round = read_round-Reads (read_buffers fuel) front.code not_end item rest in
    let last : List ℕ = (n - 1 + push1) ∷ (checkmultisig ∷ []) in
    rw (append_assoc (push_prefix (length q) ++ q) (pushes ps) last, front.bytes)
      (Reads-peek (λ code. read_round (read_buffers fuel) code.0 code.1) (rw front.bytes at round))
