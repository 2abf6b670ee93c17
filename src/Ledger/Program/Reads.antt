-- ===== src/Ledger/Program/Reads.antt =====
-- Pushed data and peeked codes are read back.
use layer.Base.{
  ℕ, ◌%◌, ◌^◌, ◌<◌, ◌≤◌, ◌≡◌, refl, ◌∙◌, false, List, [], ◌∷◌, ◌++◌, length, length-append, ltb,
  leb, ◌==◌, Bool-cases, inl, inr, ok, arith,
}
use layer.Common.Words.{le_bytes}
use layer.Common.Source.{ZeroCopySource, unread}
use layer.Common.Source.Codec.{Reads, Reads-then, Reads-nothing}
use layer.Common.Source.Reading.{
  reading, InMemory, next_byte-reading, next_word-reading, next_bytes-reading,
}
use layer.Ledger.Fields.Reads.{back_up-reading}
use layer.Ledger.Program.{
  push_prefix, push_bytes, read_op_code, peek_op_code, word_or_eof, key_length, take_bytes,
  read_bytes,
}

pub read_op_code-Reads : (c : ℕ) → Reads read_op_code (c ∷ []) c
unfolding read_op_code
read_op_code-Reads c pre rest m = rw (next_byte-reading pre rest c)

pub peek_op_code-reading :
    (pre rest : List ℕ) (c : ℕ)
    → InMemory (pre ++ (c ∷ rest))
    → peek_op_code (reading pre (c ∷ rest)) ≡ ok (c, reading pre (c ∷ rest))
unfolding peek_op_code
peek_op_code-reading pre rest c m =
    rw (read_op_code-Reads c pre rest m, back_up-reading pre (c ∷ []) rest m)

word_or_eof-Reads : (n v : ℕ) → v < 256 ^ n → Reads (word_or_eof n) (le_bytes n v) v
unfolding word_or_eof
word_or_eof-Reads n v h pre rest m = rw (next_word-reading pre rest n v h m)

take_bytes-Reads : (p : List ℕ) → Reads (take_bytes (length p)) p p
unfolding take_bytes
take_bytes-Reads p pre rest m = rw (next_bytes-reading pre p rest (length p) refl m)

-- A number of bytes: its code, and the bytes that give the number where the code does not.
pub record Prefix (n : ℕ) : Type 0 where
  pub code : ℕ
  pub more : List ℕ
  pub bytes : push_prefix n ≡ code ∷ more
  pub low : 0 < code
  pub high : code < 79
  pub count : Reads (key_length code) more n

key_length_short :
    (n : ℕ) (source : ZeroCopySource) → 0 < n → n ≤ 75 → key_length n source ≡ ok (n, source)
unfolding key_length
key_length_short n source p h = ground arith

pub prefix : (n : ℕ) → 0 < n → n < 0x1_0000_0000 → Prefix n
unfolding push_prefix key_length
prefix n p h = elim (Bool-cases (leb n 75)) [
  | inl e ↦ record {
    code = n;
    more = [];
    bytes = ground arith;
    low = p;
    high = ground arith;
    count = λ pre rest m.
        key_length_short n (reading pre rest) p (ground arith) ∙ Reads-nothing n pre rest m;
  }
  | inr e ↦ elim (Bool-cases (ltb n 0x100)) [
    | inl f ↦ record {
      code = 76;
      more = n ∷ [];
      bytes = ground arith;
      low = omega arith;
      high = omega arith;
      count = read_op_code-Reads n;
    }
    | inr f ↦ elim (Bool-cases (ltb n 0x1_0000)) [
      | inl g ↦ record {
        code = 77;
        more = le_bytes 2 n;
        bytes = ground arith;
        low = omega arith;
        high = omega arith;
        count = word_or_eof-Reads 2 n (ground arith);
      }
      | inr g ↦ record {
        code = 78;
        more = le_bytes 4 (n % 0x1_0000_0000);
        bytes = ground arith;
        low = omega arith;
        high = omega arith;
        count =
            (let same : n % 0x1_0000_0000 ≡ n = omega arith in
              rw same (word_or_eof-Reads 4 n (omega arith)));
      }
    ]
  ]
]

pub push_bytes-ok : (p : List ℕ) → 0 < length p → push_bytes p ≡ ok (push_prefix (length p) ++ p)
unfolding push_bytes
push_bytes-ok p h = ground arith

pub read_bytes-Reads :
    (p : List ℕ)
    → 0 < length p
    → length p < 0x1_0000_0000
    → Reads read_bytes (push_prefix (length p) ++ p) p
unfolding read_bytes
read_bytes-Reads p h l =
    let front = prefix (length p) h l in
    rw front.bytes (
      Reads-then read_op_code _ (read_op_code-Reads front.code)
        (Reads-then (key_length front.code) _ front.count (take_bytes-Reads p)))

-- At the end of the data, and before a byte.
pub unread-end : (pre : List ℕ) → unread (reading pre []) ≡ 0
unfolding unread
unread-end pre = ground (arith, length-append pre [])

pub unread-front : (pre rest : List ℕ) (c : ℕ) → (unread (reading pre (c ∷ rest)) == 0) ≡ false
unfolding unread
unread-front pre rest c = ground (arith, length-append pre (c ∷ rest))

pub unread-pushed :
    (pre p rest : List ℕ)
    → 0 < length p
    → length p < 0x1_0000_0000
    → (unread (reading pre ((push_prefix (length p) ++ p) ++ rest)) == 0) ≡ false
unread-pushed pre p rest h l =
    let front = prefix (length p) h l in
    rw front.bytes (unread-front pre (front.more ++ p ++ rest) front.code)
