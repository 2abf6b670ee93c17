-- ===== src/Common/Bytes.antt =====
-- The bytes that the methods of node/common/zero_copy_sink.go append, as values: what a structure's
-- `Serialization(sink)` adds to the sink. Common/Sink.antt has the buffer itself.
use layer.Base.{ℕ, ◌%◌, Bool, List, [], ◌∷◌, ◌++◌, length, ltb, leb, if◌then◌else◌}
use layer.Base.Int.{ℤ, to_unsigned}
use layer.Common.SafeMath.{u64_mod}
use layer.Common.Words.{le_bytes}

unfoldable pub bool_bytes : Bool → List ℕ
bool_bytes input = if input then 1 ∷ [] else 0 ∷ []

unfoldable pub uint16_bytes : ℕ → List ℕ
uint16_bytes = le_bytes 2

unfoldable pub uint32_bytes : ℕ → List ℕ
uint32_bytes = le_bytes 4

unfoldable pub uint64_bytes : ℕ → List ℕ
uint64_bytes = le_bytes 8

unfoldable pub int16_bytes : ℤ → List ℕ
int16_bytes input = uint16_bytes (to_unsigned 0x1_0000 input)

unfoldable pub int32_bytes : ℤ → List ℕ
int32_bytes input = uint32_bytes (to_unsigned 0x1_0000_0000 input)

unfoldable pub int64_bytes : ℤ → List ℕ
int64_bytes input = uint64_bytes (to_unsigned u64_mod input)

-- `WriteVarUint`: the bytes that stay behind `BackUp`.
unfoldable pub var_uint_bytes : ℕ → List ℕ
var_uint_bytes input =
    if ltb input 0xfd
    then input % 256 ∷ []
    else if leb input 0xffff
    then 0xfd ∷ le_bytes 2 (input % 0x1_0000)
    else if leb input 0xffff_ffff
    then 0xfe ∷ le_bytes 4 (input % 0x1_0000_0000)
    else 0xff ∷ le_bytes 8 input

-- `WriteVarBytes`, and `WriteString` of a string's bytes.
unfoldable pub var_bytes : List ℕ → List ℕ
var_bytes input = var_uint_bytes (length input) ++ input
