-- ===== src/Ledger/Fields/Reads.antt =====
-- Every way to read a field takes the bytes of its value.
use layer.Base.{
  ℕ, ◌+◌, ◌^◌, ◌<◌, ◌≡◌, refl, List, [], ◌∷◌, ◌++◌, append_assoc, length, length-append, ◌-◌, ◌%◌,
  Outcome, ok, arith,
}
use layer.Common.SafeMath.{u64_mod}
use layer.Common.Words.{le_bytes}
use layer.Common.Bytes.{var_bytes, var_uint_bytes}
use layer.Common.Source.{
  back_up, ZeroCopySource, next_array, next_hash, next_address, next_var_uint, next_var_bytes,
}
use layer.Common.Source.Reading.{
  reading, InMemory, next_byte-reading, next_word-reading, next_bytes-reading,
  next_var_uint-reading, next_var_bytes-reading,
}
use layer.Common.Source.Codec.{Reads}
use layer.Ledger.Fields.{
  byte_field, word_field, word_last, hash_field, bytes_last, address_last, regular_field,
  whole_field, last_field, passed, read_again, with_raw, Error,
}

pub byte_field-Reads : (b : ℕ) → Reads byte_field (b ∷ []) b
unfolding byte_field
byte_field-Reads b pre rest m = rw (next_byte-reading pre rest b)

pub word_field-Reads : (n v : ℕ) → v < 256 ^ n → Reads (word_field n) (le_bytes n v) v
unfolding word_field
word_field-Reads n v h pre rest m = rw (next_word-reading pre rest n v h m)

pub word_last-Reads : (n v : ℕ) → v < 256 ^ n → Reads (word_last n) (le_bytes n v) v
unfolding word_last
word_last-Reads n v h pre rest m = rw (next_word-reading pre rest n v h m)

pub hash_field-Reads : (h : List ℕ) → length h ≡ 32 → Reads hash_field h h
unfolding hash_field next_hash next_array
hash_field-Reads h e pre rest m = rw (next_bytes-reading pre h rest 32 e m)

pub bytes_last-Reads : (n : ℕ) (p : List ℕ) → length p ≡ n → Reads (bytes_last n) p p
unfolding bytes_last
bytes_last-Reads n p e pre rest m = rw (next_bytes-reading pre p rest n e m)

pub address_last-Reads : (a : List ℕ) → length a ≡ 20 → Reads address_last a a
unfolding address_last next_address next_array
address_last-Reads a e pre rest m = rw (next_bytes-reading pre a rest 20 e m)

pub regular_bytes-Reads :
    (p : List ℕ) → Reads (λ source. regular_field (next_var_bytes source)) (var_bytes p) p
unfolding regular_field
regular_bytes-Reads p pre rest m = rw (next_var_bytes-reading pre rest p m)

pub whole_bytes-Reads :
    (p : List ℕ) → Reads (λ source. whole_field (next_var_bytes source)) (var_bytes p) p
unfolding whole_field regular_field
whole_bytes-Reads p pre rest m = rw (next_var_bytes-reading pre rest p m)

pub last_bytes-Reads :
    (p : List ℕ) → Reads (λ source. last_field (next_var_bytes source)) (var_bytes p) p
unfolding last_field
last_bytes-Reads p pre rest m = rw (next_var_bytes-reading pre rest p m)

pub whole_count-Reads :
    (n : ℕ)
    → n < u64_mod
    → Reads (λ source. whole_field (next_var_uint source)) (var_uint_bytes n) n
unfolding whole_field regular_field
whole_count-Reads n h pre rest m = rw (next_var_uint-reading pre rest n h m)

pub last_count-Reads :
    (n : ℕ) → n < u64_mod → Reads (λ source. last_field (next_var_uint source)) (var_uint_bytes n) n
unfolding last_field
last_count-Reads n h pre rest m = rw (next_var_uint-reading pre rest n h m)

pub back_up-reading :
    (pre p rest : List ℕ)
    → InMemory (pre ++ (p ++ rest))
    → back_up (reading (pre ++ p) rest) (length p) ≡ reading pre (p ++ rest)
unfolding back_up
back_up-reading pre p rest m =
    let sizes = length-append pre p in
    let whole = length-append pre (p ++ rest) in
    let place : (length (pre ++ p) + u64_mod - length p) % u64_mod ≡ length pre = omega arith in
    λ i. record { s = append_assoc pre p rest i; off = place i }

passed-reading :
    (pre p rest : List ℕ)
    → InMemory (pre ++ (p ++ rest))
    → passed (length pre) (reading (pre ++ p) rest) ≡ length p
unfolding passed
passed-reading pre p rest m =
    let sizes = length-append pre p in
    let whole = length-append pre (p ++ rest) in let part = length-append p rest in omega arith

read_again-reading :
    (pre p rest : List ℕ)
    → InMemory (pre ++ (p ++ rest))
    → read_again (reading (pre ++ p) rest) (length p) ≡ (p, reading (pre ++ p) rest)
unfolding read_again
read_again-reading pre p rest m =
    rw (back_up-reading pre p rest m, next_bytes-reading pre p rest (length p) refl m)

pub with_raw-Reads :
    {A : Type 0} (check : ℕ → Outcome Error (Unit {0}))
    (decode : ZeroCopySource → Outcome Error (A × ZeroCopySource)) {p : List ℕ} {a : A}
    → Reads decode p a
    → check (length p) ≡ ok tt
    → Reads (with_raw check decode) p (a, p)
unfolding with_raw
with_raw-Reads check decode {p} h fits pre rest m =
    rw (h pre rest m, passed-reading pre p rest m, read_again-reading pre p rest m, fits)
