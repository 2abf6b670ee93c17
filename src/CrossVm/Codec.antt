-- ===== src/CrossVm/Codec.antt =====
-- node/vm/crossvm_codec/codec.go, and the parser of notify_codec.go. The kinds of interface values
-- that the code tells apart are constructors; `other` is any further kind.
pub mod RoundTrip
use layer.Base.{
  ℕ, zero, suc, ◌+◌, ◌%◌, Bool, true, false, not, List, [], ◌∷◌, ◌++◌, length, drop, take, ◌==◌,
  if◌then◌else◌, bytes_equal, Outcome, ok, err, ◌>>=◌, ◌>>◌, fail_if, map_err,
}
use layer.Base.Int.{ℤ}
use layer.Common.Bytes.{uint32_bytes}
use layer.Common.Int128.{Int128Error, i128_from_int64, i128_from_big_int, to_big_int}
use layer.Common.Source.{
  ZeroCopySource, new_source, next_byte, next_uint32, next_bytes, next_bool, next_address,
  next_i128, next_hash,
}

-- `int64` stands for an int or an int64, `int32` for an int32 or a uint32; `items` are the elements
-- of a list.
mutual
  pub data Value : Type 0 where
    byte_array : List ℕ → Value
    text : List ℕ → Value
    address : List ℕ → Value
    boolean : Bool → Value
    big_int : ℤ → Value
    int64 : ℤ → Value
    int32 : ℤ → Value
    h256 : List ℕ → Value
    items : Values → Value
    other : Value

  pub data Values : Type 0 where
    none_left : Values
    value : Value → Values → Values

pub data CodecError : Type 0 where
  param_format not_supported_type out_of_range unsupported out_of_fuel : CodecError

abbrev pub byte_array_type : ℕ
byte_array_type = 0

abbrev pub string_type : ℕ
string_type = 1

abbrev pub address_type : ℕ
address_type = 2

abbrev pub boolean_type : ℕ
boolean_type = 3

abbrev pub int_type : ℕ
int_type = 4

abbrev pub h256_type : ℕ
h256_type = 5

abbrev pub list_type : ℕ
list_type = 0x10

-- `EncodeBytes` and `EncodeString`, by the type.
unfoldable pub encode_sized : ℕ → List ℕ → List ℕ
encode_sized type buf = type ∷ (uint32_bytes (length buf % 0x1_0000_0000) ++ buf)

unfoldable pub encode_bool : Bool → List ℕ
encode_bool b = boolean_type ∷ (if b then 1 else 0) ∷ []

unfoldable pub encode_int128 : List ℕ → List ℕ
encode_int128 val = int_type ∷ val

unfoldable pub encode_big_int : ℤ → Outcome CodecError (List ℕ)
encode_big_int intval =
    map_err (λ (e : Int128Error). out_of_range) (i128_from_big_int intval) >>= λ val.
    ok (encode_int128 val)

abbrev pub count : Values → ℕ
count none_left = 0
count (value v vs) = suc (count vs)

-- The switch over an element in `EncodeList`, and the loop; `EncodeList` itself is the case of a
-- list.
unfoldable mutual
  pub encode_element : Value → Outcome CodecError (List ℕ)
  encode_element (byte_array buf) = ok (encode_sized byte_array_type buf)
  encode_element (text buf) = ok (encode_sized string_type buf)
  encode_element (address addr) = ok (address_type ∷ addr)
  encode_element (boolean b) = ok (encode_bool b)
  encode_element (big_int z) = encode_big_int z
  encode_element (int64 z) = ok (encode_int128 (i128_from_int64 z))
  encode_element (int32 z) = ok (encode_int128 (i128_from_int64 z))
  encode_element (h256 hash) = ok (h256_type ∷ hash)
  encode_element (items vs) = encode_elements vs >>= λ elements.
      ok (list_type ∷ (uint32_bytes (count vs % 0x1_0000_0000) ++ elements))
  encode_element other = err unsupported

  pub encode_elements : Values → Outcome CodecError (List ℕ)
  encode_elements none_left = ok []
  encode_elements (value v vs) =
      encode_element v >>= λ first. encode_elements vs >>= λ rest. ok (first ++ rest)

-- `EncodeValue` writes nothing for a kind that it does not know.
unfoldable pub encode_value : Value → Outcome CodecError (List ℕ)
encode_value (int32 z) = ok []
encode_value other = ok []
encode_value v = encode_element v

-- A read whose end flag is tested.
unfoldable pub checked :
    {A : Type 0} → A × Bool × ZeroCopySource → Outcome CodecError (A × ZeroCopySource)
checked (val, eof, source) = fail_if eof param_format >> ok (val, source)

unfoldable pub read_sized : ZeroCopySource → Outcome CodecError (List ℕ × ZeroCopySource)
read_sized source = do size ← checked (next_uint32 source); checked (next_bytes size.1 size.0)

unfoldable pub read_bool : ZeroCopySource → Outcome CodecError (Bool × ZeroCopySource)
read_bool source =
    let (by, irr, eof, source') = next_bool source in
    fail_if eof param_format >> fail_if irr param_format >> ok (by, source')

-- The loop over the elements of a list, each read by `decode`.
unfoldable pub decode_items :
    (ZeroCopySource → Outcome CodecError (Value × ZeroCopySource))
    → ℕ
    → ZeroCopySource
    → Outcome CodecError (Values × ZeroCopySource)
decode_items decode zero source = ok (none_left, source)
decode_items decode (suc n) source = do
  val ← decode source
  rest ← decode_items decode n val.1
  ok (value val.0 rest.0, rest.1)

unfoldable pub decode_list :
    (ZeroCopySource → Outcome CodecError (Value × ZeroCopySource))
    → ZeroCopySource
    → Outcome CodecError (Values × ZeroCopySource)
decode_list decode source = do
  size ← checked (next_uint32 source)
  decode_items decode size.0 size.1

-- The value behind a read of its content.
unfoldable pub as_value :
    {A : Type 0}
    → (A → Value)
    → Outcome CodecError (A × ZeroCopySource)
    → Outcome CodecError (Value × ZeroCopySource)
as_value wrap read = read >>= λ r. ok (wrap r.0, r.1)

-- The switch of `DecodeValue`.
unfoldable pub decode_as :
    (ZeroCopySource → Outcome CodecError (Value × ZeroCopySource))
    → ℕ
    → ZeroCopySource
    → Outcome CodecError (Value × ZeroCopySource)
decode_as decode type source =
    if type == byte_array_type
    then as_value byte_array (read_sized source)
    else if type == string_type
    then as_value text (read_sized source)
    else if type == address_type
    then as_value address (checked (next_address source))
    else if type == boolean_type
    then as_value boolean (read_bool source)
    else if type == int_type
    then as_value (λ val. big_int (to_big_int val)) (checked (next_i128 source))
    else if type == h256_type
    then as_value h256 (checked (next_hash source))
    else if type == list_type
    then as_value items (decode_list decode source)
    else err not_supported_type

unfoldable pub decode_value : ℕ → ZeroCopySource → Outcome CodecError (Value × ZeroCopySource)
decode_value zero source = err out_of_fuel
decode_value (suc fuel) source =
    checked (next_byte source) >>= λ type. decode_as (decode_value fuel) type.0 type.1

-- `parseNotify`: behind the bytes "evt\0".
unfoldable pub parse_notify : List ℕ → Outcome CodecError Value
parse_notify input =
    fail_if (not (bytes_equal (take 4 input) (101 ∷ 118 ∷ 116 ∷ 0 ∷ []))) param_format
    >> (do val ← decode_value (suc (length input)) (new_source (drop 4 input)); ok val.0)
