-- ===== src/CrossVm/Codec/RoundTrip.antt =====
-- What is encoded is decoded, with every integer as a big.Int.
use layer.Base.{
  ℕ, zero, suc, ◌%◌, ◌<◌, ◌≤◌, ◌≡◌, refl, ◌∙◌, Bool, true, false, List, [], ◌∷◌, ◌++◌, length,
  length-append, Outcome, ok, ◌>>=◌, if◌then◌else◌, arith,
}
use layer.Base.Int.{ℤ}
use layer.Common.Bytes.{uint32_bytes}
use layer.Common.Int128.{
  IsInt64, IsInt128, i128_from_int64, to_big_int, i128_from_big_int-ok, to_big_int-i128_from_int64,
}
use layer.Common.Source.{
  ZeroCopySource, unread, new_source, next_byte, next_uint32, next_bytes, next_bool, next_address,
  next_i128, next_hash, next_array,
}
use layer.Common.Source.Reading.{
  reading, InMemory, next_byte-reading, next_word-reading, next_bytes-reading,
}
use layer.Common.Source.Codec.{Reads, Reads-then, Reads-end, Reads-nothing, Reads-whole}
use layer.CrossVm.Codec.{
  Value, Values, byte_array, text, address, boolean, big_int, int64, int32, h256, items, other,
  none_left, value, CodecError, byte_array_type, string_type, address_type, boolean_type, int_type,
  h256_type, list_type, encode_sized, encode_bool, encode_int128, encode_big_int, count,
  encode_element, encode_elements, encode_value, checked, read_sized, read_bool, decode_items,
  decode_list, as_value, decode_as, decode_value,
}

unfoldable mutual
  pub decoded : Value → Value
  decoded (byte_array buf) = byte_array buf
  decoded (text buf) = text buf
  decoded (address addr) = address addr
  decoded (boolean b) = boolean b
  decoded (big_int z) = big_int z
  decoded (int64 z) = big_int z
  decoded (int32 z) = big_int z
  decoded (h256 hash) = h256 hash
  decoded (items vs) = items (decoded_all vs)
  decoded other = other

  pub decoded_all : Values → Values
  decoded_all none_left = none_left
  decoded_all (value v vs) = value (decoded v) (decoded_all vs)

-- The sizes of a value's parts fit their types.
unfoldable mutual
  pub IsEncodable : Value → Type 0
  IsEncodable (byte_array buf) = length buf < 0x1_0000_0000
  IsEncodable (text buf) = length buf < 0x1_0000_0000
  IsEncodable (address addr) = length addr ≡ 20
  IsEncodable (boolean b) = Unit {0}
  IsEncodable (big_int z) = IsInt128 z
  IsEncodable (int64 z) = IsInt64 z
  IsEncodable (int32 z) = IsInt64 z
  IsEncodable (h256 hash) = length hash ≡ 32
  IsEncodable (items vs) = (count vs < 0x1_0000_0000) × AllEncodable vs
  IsEncodable other = ⊥

  pub AllEncodable : Values → Type 0
  AllEncodable none_left = Unit {0}
  AllEncodable (value v vs) = IsEncodable v × AllEncodable vs

byte-Reads : (b : ℕ) → Reads (λ source. checked (next_byte source)) (b ∷ []) b
unfolding checked
byte-Reads b pre rest m = rw (next_byte-reading pre rest b)

uint32-Reads :
    (n : ℕ)
    → n < 0x1_0000_0000
    → Reads (λ source. checked (next_uint32 source)) (uint32_bytes (n % 0x1_0000_0000)) n
unfolding checked next_uint32 uint32_bytes
uint32-Reads n h =
    let same : n % 0x1_0000_0000 ≡ n = omega arith in
    rw same (λ pre rest m. rw (next_word-reading pre rest 4 n (omega arith) m))

bytes-Reads : (p : List ℕ) → Reads (λ source. checked (next_bytes source (length p))) p p
unfolding checked
bytes-Reads p pre rest m = rw (next_bytes-reading pre p rest (length p) refl m)

sized-Reads :
    (p : List ℕ)
    → length p < 0x1_0000_0000
    → Reads read_sized (uint32_bytes (length p % 0x1_0000_0000) ++ p) p
unfolding read_sized
sized-Reads p h =
    Reads-then (λ source. checked (next_uint32 source)) _ (uint32-Reads (length p) h)
      (bytes-Reads p)

address-Reads : (a : List ℕ) → length a ≡ 20 → Reads (λ source. checked (next_address source)) a a
unfolding checked next_address next_array
address-Reads a e pre rest m = rw (next_bytes-reading pre a rest 20 e m)

hash-Reads : (a : List ℕ) → length a ≡ 32 → Reads (λ source. checked (next_hash source)) a a
unfolding checked next_hash next_array
hash-Reads a e pre rest m = rw (next_bytes-reading pre a rest 32 e m)

i128-Reads : (a : List ℕ) → length a ≡ 16 → Reads (λ source. checked (next_i128 source)) a a
unfolding checked next_i128 next_array
i128-Reads a e pre rest m = rw (next_bytes-reading pre a rest 16 e m)

bool-Reads : (b : Bool) → Reads read_bool ((if b then 1 else 0) ∷ []) b
unfolding read_bool next_bool
bool-Reads true pre rest m = rw (next_byte-reading pre rest 1)
bool-Reads false pre rest m = rw (next_byte-reading pre rest 0)

-- A value behind its type.
typed-Reads :
    {A : Type 0} (fuel type : ℕ) (wrap : A → Value)
    (read : ZeroCopySource → Outcome CodecError (A × ZeroCopySource)) {p : List ℕ} {a : A}
    → ((source : ZeroCopySource)
        → decode_as (decode_value fuel) type source ≡ as_value wrap (read source))
    → Reads read p a
    → Reads (decode_value (suc fuel)) (type ∷ p) (wrap a)
unfolding decode_value as_value
typed-Reads fuel type wrap read {p} {a} same h =
    Reads-then (λ source. checked (next_byte source)) _ (byte-Reads type)
      (λ pre rest m.
        same (reading pre (p ++ rest))
        ∙ Reads-end read (λ r. ok (wrap r.0, r.1)) h (λ s. refl) pre rest m)

-- The same for any fuel that is not less than the bytes.
with_fuel :
    {A : Type 0} (type : ℕ) (wrap : A → Value)
    (read : ZeroCopySource → Outcome CodecError (A × ZeroCopySource)) {p : List ℕ} {a : A}
    → ((decode : ZeroCopySource → Outcome CodecError (Value × ZeroCopySource))
          (source : ZeroCopySource)
        → decode_as decode type source ≡ as_value wrap (read source))
    → Reads read p a
    → (fuel : ℕ) → length (type ∷ p) ≤ fuel
    → Reads (decode_value fuel) (type ∷ p) (wrap a)
with_fuel type wrap read same h zero enough = absurd (omega arith)
with_fuel type wrap read same h (suc fuel) enough =
    typed-Reads fuel type wrap read (same (decode_value fuel)) h

-- With fuel for its bytes, a value that is encoded is decoded.
abbrev Decodes : Value → Type 0
Decodes v =
    (p : List ℕ) × (encode_element v ≡ ok p)
    × (0 < length p)
    × ((fuel : ℕ) → length p ≤ fuel → Reads (decode_value fuel) p (decoded v))

abbrev DecodesAll : Values → Type 0
DecodesAll vs =
    (p : List ℕ) × (encode_elements vs ≡ ok p)
    × ((fuel : ℕ)
        → length p ≤ fuel
        → Reads (decode_items (decode_value fuel) (count vs)) p (decoded_all vs))

big_int-Decodes : (z : ℤ) → IsInt128 z → Decodes (big_int z)
unfolding encode_element decoded decode_as encode_big_int encode_int128
big_int-Decodes z h =
    let (i, written, size, back) = i128_from_big_int-ok z h in
    (
      encode_int128 i,
      rw written refl,
      omega arith,
      λ fuel enough. rw back at (
          with_fuel int_type (λ val. big_int (to_big_int val))
            (λ source. checked (next_i128 source)) (λ d s. refl) (i128-Reads i size) fuel enough),
    )

int64-Reads :
    (z : ℤ)
    → IsInt64 z
    → (fuel : ℕ) → length (encode_int128 (i128_from_int64 z)) ≤ fuel
    → Reads (decode_value fuel) (encode_int128 (i128_from_int64 z)) (big_int z)
unfolding decode_as encode_int128
int64-Reads z h fuel enough =
    let (size, back) = to_big_int-i128_from_int64 z h in
    rw back at (
      with_fuel int_type (λ val. big_int (to_big_int val)) (λ source. checked (next_i128 source))
        (λ d s. refl) (i128-Reads (i128_from_int64 z) size) fuel enough)

list-Reads :
    (fuel : ℕ) (vs : Values) {p : List ℕ}
    → count vs < 0x1_0000_0000
    → Reads (decode_items (decode_value fuel) (count vs)) p (decoded_all vs)
    → Reads
        (decode_list (decode_value fuel))
        (uint32_bytes (count vs % 0x1_0000_0000) ++ p)
        (decoded_all vs)
unfolding decode_list
list-Reads fuel vs h all =
    Reads-then (λ source. checked (next_uint32 source)) _ (uint32-Reads (count vs) h) all

both-Decode : (v : Value) (vs : Values) → Decodes v → DecodesAll vs → DecodesAll (value v vs)
unfolding encode_elements decoded_all decode_items
both-Decode v vs (p, pe, pl, pr) (q, qe, qr) = (
  p ++ q,
  rw (pe, qe),
  λ fuel enough. Reads-then (decode_value fuel) _ (pr fuel (omega (arith, length-append p q))) (
      Reads-end (decode_items (decode_value fuel) (count vs)) _
        (qr fuel (omega (arith, length-append p q))) (λ s. refl)),
)

list-Decodes : (vs : Values) → count vs < 0x1_0000_0000 → DecodesAll vs → Decodes (items vs)
unfolding encode_element decoded decode_as
list-Decodes vs h (p, written, all) = (
  list_type ∷ (uint32_bytes (count vs % 0x1_0000_0000) ++ p),
  rw written refl,
  omega arith,
  reads,
)
  where
    reads :
        (fuel : ℕ)
        → length (list_type ∷ (uint32_bytes (count vs % 0x1_0000_0000) ++ p)) ≤ fuel
        → Reads
            (decode_value fuel)
            (list_type ∷ (uint32_bytes (count vs % 0x1_0000_0000) ++ p))
            (items (decoded_all vs))
    reads zero enough = absurd (omega arith)
    reads (suc fuel) enough =
        typed-Reads fuel list_type items (decode_list (decode_value fuel)) (λ s. refl)
          (list-Reads fuel vs h
            (all fuel (omega (arith, length-append (uint32_bytes (count vs % 0x1_0000_0000)) p))))

mutual
  unfolding IsEncodable encode_element decoded decode_as decode_items encode_sized encode_bool
      encode_int128

  element-Decodes : (v : Value) → IsEncodable v → Decodes v
  element-Decodes (byte_array buf) h = (
    encode_sized byte_array_type buf,
    refl,
    omega arith,
    with_fuel byte_array_type byte_array read_sized (λ d s. refl) (sized-Reads buf h),
  )
  element-Decodes (text buf) h = (
    encode_sized string_type buf,
    refl,
    omega arith,
    with_fuel string_type text read_sized (λ d s. refl) (sized-Reads buf h),
  )
  element-Decodes (address addr) h = (
    address_type ∷ addr,
    refl,
    omega arith,
    with_fuel address_type address (λ source. checked (next_address source)) (λ d s. refl)
        (address-Reads addr h),
  )
  element-Decodes (boolean b) h = (
    encode_bool b,
    refl,
    omega arith,
    with_fuel boolean_type boolean read_bool (λ d s. refl) (bool-Reads b),
  )
  element-Decodes (big_int z) h = big_int-Decodes z h
  element-Decodes (int64 z) h =
      (encode_int128 (i128_from_int64 z), refl, omega arith, int64-Reads z h)
  element-Decodes (int32 z) h =
      (encode_int128 (i128_from_int64 z), refl, omega arith, int64-Reads z h)
  element-Decodes (h256 hash) h = (
    h256_type ∷ hash,
    refl,
    omega arith,
    with_fuel h256_type h256 (λ source. checked (next_hash source)) (λ d s. refl)
        (hash-Reads hash h),
  )
  element-Decodes (items vs) (n, hs) = list-Decodes vs n (elements-Decodes vs hs)
  element-Decodes other h = absurd h

  elements-Decodes : (vs : Values) → AllEncodable vs → DecodesAll vs
  elements-Decodes none_left h = ([], refl, λ fuel enough. Reads-nothing none_left)
  elements-Decodes (value v vs) (h, hs) =
      both-Decode v vs (element-Decodes v h) (elements-Decodes vs hs)

unread-whole : (p : List ℕ) → unread (record { s = p; off = length p }) ≡ 0
unfolding unread
unread-whole p = ground arith

-- The value of an input, and how many bytes are left of it.
unfoldable pub decode_whole : List ℕ → Outcome CodecError (Value × ℕ)
decode_whole p = do r ← decode_value (suc (length p)) (new_source p); ok (r.0, unread r.1)

-- `EncodeValue` knows all kinds but two.
unfoldable pub IsKnown : Value → Type 0
IsKnown (int32 z) = ⊥
IsKnown other = ⊥
IsKnown v = Unit {0}

encode_value-element : (v : Value) → IsKnown v → encode_value v ≡ encode_element v
unfolding encode_value IsKnown
encode_value-element (int32 z) h = absurd h
encode_value-element other h = absurd h
encode_value-element _ h = refl

-- A value of a kind that `EncodeValue` knows, with addresses of 20 bytes, hashes of 32, texts,
-- byte strings and lists of fewer than 2 ^ 32 and integers that fit their types, no part of an
-- unknown kind, and an encoding of fewer than 2 ^ 63 bytes, is encoded, and `DecodeValue` with
-- more fuel than the bytes reads it back whole, with every integer as a big.Int.
pub decode_value-encode_value :
    (v : Value)
    → IsKnown v
    → IsEncodable v
    → ((p : List ℕ) → encode_value v ≡ ok p → InMemory p)
    → (encode_value v >>= decode_whole) ≡ ok (decoded v, 0)
unfolding decode_whole
decode_value-encode_value v known h short =
    let (p, written, long, reads) = element-Decodes v h in
    let whole = encode_value-element v known ∙ written in
    let back =
      Reads-whole (decode_value (suc (length p))) (reads (suc (length p)) (omega arith))
        (short p whole) in
    let end : unread (record { s = p; off = length p }) ≡ 0 = unread-whole p in
    rw (whole, back, end)
