-- ===== src/Tests/CodecValueRuns.antt =====
-- A list of values of several kinds.
use layer.Base.{ℕ, ◌≡◌, true, List, [], ◌∷◌, length, ok, ◌>>=◌, arith, ap, Outcome, err}
use layer.Common.Words.{le_bytes}
use layer.Common.Bytes.{uint32_bytes}
use layer.Common.Int128.{i128_from_int64, i128_from_big_int, sign_bytes}
use layer.Base.Int.{pos, negsuc, to_unsigned}
use layer.Common.Source.Reading.{InMemory}
use layer.CrossVm.Codec.{
  Value, byte_array, boolean, int32, big_int, items, none_left, value, encode_value, encode_element,
  encode_sized, encode_bool, encode_int128, encode_big_int, CodecError,
}
use layer.CrossVm.Codec.RoundTrip.{
  decode_whole, decoded, IsKnown, IsEncodable, decode_value-encode_value,
}

abbrev several : Value
several = items (
    value (byte_array (1 ∷ 2 ∷ []))
      (value (boolean true) (value (int32 (pos 7)) (value (big_int (negsuc 0)) none_left))))

several-IsEncodable : IsEncodable several
unfolding IsEncodable
several-IsEncodable = omega arith

several-IsKnown : IsKnown several
unfolding IsKnown
several-IsKnown = tt

abbrev size_of : Outcome CodecError (List ℕ) → ℕ
size_of (ok p) = length p
size_of (err e) = 0

several-InMemory : (p : List ℕ) → encode_value several ≡ ok p → InMemory p
unfolding encode_value encode_element encode_sized encode_bool encode_int128 encode_big_int
    i128_from_int64 i128_from_big_int uint32_bytes le_bytes sign_bytes to_unsigned
several-InMemory p h = omega (arith, ap size_of h)

decode_value-encode_value_example :
    (encode_value several >>= decode_whole) ≡ ok (decoded several, 0)
decode_value-encode_value_example =
    decode_value-encode_value several several-IsKnown several-IsEncodable several-InMemory
