-- ===== src/Common/Source/Reading.antt =====
-- Reading back what the sink wrote: every reading method takes its own encoding off the front of
-- the unread bytes and leaves what follows.
use layer.Base.{
  suc, ℕ, ◌+◌, ◌%◌, ◌^◌, ◌<◌, ◌≡◌, refl, sym, ap, ◌∙◌, true, false, inl, inr, Bool-cases, ltb, leb,
  List, [], ◌∷◌, ◌++◌, append_assoc, length, length-append, get_elem?-append_right, slice,
  slice_mid, arith,
}
use layer.Common.SafeMath.{u64_mod, safe_add}
use layer.Common.Words.{le_bytes, length-le_bytes, le_value-le_bytes}
use layer.Common.Bytes.{var_uint_bytes, var_bytes}
use layer.Common.Source.{
  ZeroCopySource, read_end, next_bytes, next_byte, next_word, next_uint16, next_uint32, next_uint64,
  finish_var_uint, next_var_uint, next_var_bytes, finish_var_bytes, get_var_uint_size,
}

-- A source that has read `pre` and has `rest` before it.
abbrev pub reading : List ℕ → List ℕ → ZeroCopySource
reading pre rest = record { s = pre ++ rest; off = length pre }

-- A Go slice is shorter than 2^63.
abbrev pub InMemory : List ℕ → Type 0
InMemory xs = length xs < 0x8000_0000_0000_0000

moved :
    (pre p rest : List ℕ) (k : ℕ)
    → k ≡ length pre + length p
    → ◌≡◌ {A = ZeroCopySource}
        (record { s = pre ++ (p ++ rest); off = k })
        (reading (pre ++ p) rest)
moved pre p rest k h =
    λ i. record { s = sym (append_assoc pre p rest) i; off = (h ∙ sym (length-append pre p)) i }

pub next_bytes-reading :
    (pre p rest : List ℕ) (n : ℕ)
    → length p ≡ n
    → InMemory (pre ++ (p ++ rest))
    → next_bytes (reading pre (p ++ rest)) n ≡ (p, false, reading (pre ++ p) rest)
unfolding next_bytes read_end safe_add
next_bytes-reading pre p rest n h m =
    rw end (λ i. (data_read i, false, moved pre p rest (length pre + n) (omega arith) i))
  where
    end : read_end (reading pre (p ++ rest)) n ≡ (length pre + n, false)
    end = ground (arith, length-append pre (p ++ rest), length-append p rest)

    data_read : slice (pre ++ (p ++ rest)) (length pre) (length pre + n) ≡ p
    data_read = slice_mid pre p rest (length pre) (length pre + n) refl (omega arith)

pub next_byte-reading :
    (pre rest : List ℕ) (b : ℕ)
    → next_byte (reading pre (b ∷ rest)) ≡ (b, false, reading (pre ++ (b ∷ [])) rest)
unfolding next_byte
next_byte-reading pre rest b =
    rw (get_elem?-append_right pre (b ∷ rest) (length pre) 0 (omega arith), next_byte)
      (λ i. (b, false, moved pre (b ∷ []) rest (length pre + 1) (omega arith) i))

pub next_word-reading :
    (pre rest : List ℕ) (k v : ℕ)
    → v < 256 ^ k
    → InMemory (pre ++ (le_bytes k v ++ rest))
    → next_word k (reading pre (le_bytes k v ++ rest))
      ≡ (v, false, reading (pre ++ le_bytes k v) rest)
unfolding next_word
next_word-reading pre rest k v h m =
    rw (
      next_bytes-reading pre (le_bytes k v) rest k (length-le_bytes k v) m,
      le_value-le_bytes k v h,
    )

-- The three tags, each with the number of its bytes and the size of the whole.
data Tagged : ℕ → ℕ → ℕ → Type 0 where
  tag16 : {k size tag : ℕ} → k ≡ 2 → size ≡ 3 → tag ≡ 0xfd → Tagged k size tag
  tag32 : {k size tag : ℕ} → k ≡ 4 → size ≡ 5 → tag ≡ 0xfe → Tagged k size tag
  tag64 : {k size tag : ℕ} → k ≡ 8 → size ≡ 9 → tag ≡ 0xff → Tagged k size tag

-- The four forms of a variable-length number, each with its size.
data Form (v : ℕ) : Type 0 where
  byte : v < 0xfd → var_uint_bytes v ≡ v ∷ [] → get_var_uint_size v ≡ 1 → Form v
  word :
      (k size tag : ℕ)
      → Tagged k size tag
      → v < 256 ^ k
      → var_uint_bytes v ≡ tag ∷ le_bytes k v
      → get_var_uint_size v ≡ size
      → Form v

form : (v : ℕ) → v < u64_mod → Form v
unfolding var_uint_bytes get_var_uint_size
form v h = elim (Bool-cases (ltb v 0xfd)) [
  | inl e ↦ Form.byte (ground arith) (ground arith) (ground arith)
  | inr e ↦ elim (Bool-cases (leb v 0xffff)) [
    | inl f ↦ Form.word 2 3 0xfd (tag16 refl refl refl) (ground arith) (ground arith) (ground arith)
    | inr f ↦ elim (Bool-cases (leb v 0xffff_ffff)) [
      | inl g ↦
          Form.word 4 5 0xfe (tag32 refl refl refl) (ground arith) (ground arith) (ground arith)
      | inr g ↦
          Form.word 8 9 0xff (tag64 refl refl refl) (omega arith) (ground arith) (ground arith)
    ]
  ]
]

Tagged-size : (k size tag : ℕ) → Tagged k size tag → (v : ℕ) → size ≡ suc (length (le_bytes k v))
Tagged-size k size tag (tag16 a b c) v = omega (arith, length-le_bytes k v)
Tagged-size k size tag (tag32 a b c) v = omega (arith, length-le_bytes k v)
Tagged-size k size tag (tag64 a b c) v = omega (arith, length-le_bytes k v)

-- What the switch of `NextVarUint` does behind a tag.
next_var_uint-tag :
    (pre rest : List ℕ) {k size tag : ℕ}
    → Tagged k size tag
    → next_var_uint (reading pre (tag ∷ rest))
      ≡ finish_var_uint size (next_word k (reading (pre ++ (tag ∷ [])) rest))
unfolding next_var_uint next_uint16 next_uint32 next_uint64
next_var_uint-tag pre rest (tag16 a b c) = rw (a, b, c, next_byte-reading pre rest 0xfd)
next_var_uint-tag pre rest (tag32 a b c) = rw (a, b, c, next_byte-reading pre rest 0xfe)
next_var_uint-tag pre rest (tag64 a b c) = rw (a, b, c, next_byte-reading pre rest 0xff)

next_var_uint-byte :
    (pre rest : List ℕ) (v : ℕ)
    → v < 0xfd
    → next_var_uint (reading pre (v ∷ rest))
      ≡ finish_var_uint 1 (v, false, reading (pre ++ (v ∷ [])) rest)
unfolding next_var_uint
next_var_uint-byte pre rest v h = rw (next_byte-reading pre rest v) (ground arith)

finish_var_uint-regular :
    (size v : ℕ) (src : ZeroCopySource)
    → get_var_uint_size v ≡ size
    → finish_var_uint size (v, false, src)
      ≡ record { value = v; size = size; irregular = false; eof = false; source = src }
unfolding finish_var_uint
finish_var_uint-regular size v src h = rw h (ground arith)

-- Where the bytes of `WriteVarUint` for a number below 2 ^ 64 come next in data shorter than 2 ^
-- 63, `NextVarUint` reads the number, its size and no flag, and stands behind them.
pub next_var_uint-reading :
    (pre rest : List ℕ) (v : ℕ)
    → v < u64_mod
    → InMemory (pre ++ (var_uint_bytes v ++ rest))
    → next_var_uint (reading pre (var_uint_bytes v ++ rest)) ≡ record {
      value = v;
      size = length (var_uint_bytes v);
      irregular = false;
      eof = false;
      source = reading (pre ++ var_uint_bytes v) rest;
    }
next_var_uint-reading pre rest v h m = elim (form v h) [
  | byte small e s ↦ rw e (
      next_var_uint-byte pre rest v small
      ∙ finish_var_uint-regular 1 v (reading (pre ++ (v ∷ [])) rest) s)
  | word k size tag t fits e s ↦ rw e (tagged k size tag t fits s (rw e at m))
]
  where
    tagged :
        (k size tag : ℕ)
        → Tagged k size tag
        → v < 256 ^ k
        → get_var_uint_size v ≡ size
        → InMemory (pre ++ (tag ∷ (le_bytes k v ++ rest)))
        → next_var_uint (reading pre (tag ∷ (le_bytes k v ++ rest))) ≡ record {
          value = v;
          size = suc (length (le_bytes k v));
          irregular = false;
          eof = false;
          source = reading (pre ++ (tag ∷ le_bytes k v)) rest;
        }
    tagged k size tag t fits s m' =
        let p = le_bytes k v in
        let mem : InMemory ((pre ++ (tag ∷ [])) ++ (p ++ rest)) =
          rw (append_assoc pre (tag ∷ []) (p ++ rest)) m' in
        next_var_uint-tag pre (p ++ rest) t
        ∙ (ap (finish_var_uint size) (next_word-reading (pre ++ (tag ∷ [])) rest k v fits mem)
            ∙ (finish_var_uint-regular size v (reading ((pre ++ (tag ∷ [])) ++ p) rest) s ∙ λ i.
                record {
                  value = v;
                  size = Tagged-size k size tag t v i;
                  irregular = false;
                  eof = false;
                  source = reading (append_assoc pre (tag ∷ []) p i) rest;
                }))

finish_var_bytes-reading :
    (pre rest p : List ℕ) (k total : ℕ)
    → k + length p ≡ total
    → total < u64_mod
    → InMemory (pre ++ (p ++ rest))
    → finish_var_bytes (record {
      value = length p;
      size = k;
      irregular = false;
      eof = false;
      source = reading pre (p ++ rest);
    })
      ≡ record {
        value = p;
        size = total;
        irregular = false;
        eof = false;
        source = reading (pre ++ p) rest;
      }
unfolding finish_var_bytes
finish_var_bytes-reading pre rest [] k total h small m =
    let same : (k + 0) % u64_mod ≡ total = omega arith in
    λ i. record {
      value = [];
      size = same i;
      irregular = false;
      eof = false;
      source = moved pre [] rest (length pre) (omega arith) i;
    }
finish_var_bytes-reading pre rest (x ∷ p) k total h small m =
    let same : (k + length (x ∷ p)) % u64_mod ≡ total = omega arith in
    let count : ltb 0 (length (x ∷ p)) ≡ true = ground arith in
    rw (next_bytes-reading pre (x ∷ p) rest (length (x ∷ p)) refl m, count, same)

-- Where the bytes of `WriteVarBytes` for `p` come next in data shorter than 2 ^ 63,
-- `NextVarBytes` reads `p`, its size and no flag, and stands behind them.
pub next_var_bytes-reading :
    (pre rest p : List ℕ)
    → InMemory (pre ++ (var_bytes p ++ rest))
    → next_var_bytes (reading pre (var_bytes p ++ rest)) ≡ record {
      value = p;
      size = length (var_bytes p);
      irregular = false;
      eof = false;
      source = reading (pre ++ var_bytes p) rest;
    }
unfolding next_var_bytes var_bytes
next_var_bytes-reading pre rest p m =
    let n = var_uint_bytes (length p) in
    let m' : InMemory (pre ++ (n ++ (p ++ rest))) = rw (append_assoc n p rest) at m in
    rw (append_assoc n p rest, ← append_assoc pre n p)
      (ap finish_var_bytes
          (next_var_uint-reading pre (p ++ rest) (length p) (omega (arith, sizes, m)) m')
        ∙ finish_var_bytes-reading (pre ++ n) rest p (length n) (length (n ++ p))
            (omega (arith, length-append n p)) (omega (arith, length-append n p, sizes, m))
            (rw (append_assoc pre n (p ++ rest)) m'))
  where
    sizes :
        length (pre ++ ((var_uint_bytes (length p) ++ p) ++ rest))
        ≡ length pre + length (var_uint_bytes (length p)) + length p + length rest
    sizes = omega (
      arith,
      length-append pre ((var_uint_bytes (length p) ++ p) ++ rest),
      length-append (var_uint_bytes (length p) ++ p) rest,
      length-append (var_uint_bytes (length p)) p,
    )
