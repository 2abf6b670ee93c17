-- ===== src/Common/Source.antt =====
-- node/common/zero_copy_source.go: a reader over a byte slice. A reading method returns its
-- results and the source behind it. Go's slice expression `s[off:end]` panics unless
-- off <= end <= len(s); `slice` gives a shorter list there. Every method but `back_up` keeps
-- `off` in range.
pub mod Bounds
pub mod Reading
pub mod Codec
use layer.Base.{
  ℕ, zero, suc, ◌+◌, ◌-◌, ◌%◌, Bool, true, false, not, ◌||◌, Option, none, some, List, [], length,
  get_elem?, slice, replicate, ltb, leb, ◌==◌, if◌then◌else◌,
}
use layer.Base.Int.{ℤ, to_signed}
use layer.Common.SafeMath.{u64_mod, safe_add}
use layer.Common.Words.{le_value}

pub record ZeroCopySource : Type 0 where
  pub s : List ℕ
  pub off : ℕ

-- What a method with the results (data, size, irregular, eof) gives.
pub record VarRead (A : Type 0) : Type 0 where
  pub value : A
  pub size : ℕ
  pub irregular : Bool
  pub eof : Bool
  pub source : ZeroCopySource

unfoldable pub new_source : List ℕ → ZeroCopySource
new_source b = record { s = b; off = 0 }

-- `Len`
unfoldable pub unread : ZeroCopySource → ℕ
unread src = if leb (length src.s) src.off then 0 else length src.s - src.off

-- `Pos`
unfoldable pub position : ZeroCopySource → ℕ
position src = src.off

-- `Size`
unfoldable pub size : ZeroCopySource → ℕ
size src = length src.s

-- The end of a read of `n` bytes, and whether the data ends before it.
unfoldable pub read_end : ZeroCopySource → ℕ → ℕ × Bool
read_end src n =
    let m = length src.s in
    let (end, overflow) = safe_add src.off n in
    if overflow || ltb m end then (m, true) else (end, false)

unfoldable pub next_bytes : ZeroCopySource → ℕ → List ℕ × Bool × ZeroCopySource
next_bytes src n =
    let (end, eof) = read_end src n in (slice src.s src.off end, eof, record src { off = end })

unfoldable pub skip : ZeroCopySource → ℕ → Bool × ZeroCopySource
skip src n = let (end, eof) = read_end src n in (eof, record src { off = end })

unfoldable pub next_byte : ZeroCopySource → ℕ × Bool × ZeroCopySource
next_byte src = elim (get_elem? src.s src.off) [
  | none ↦ (0, true, src)
  | some b ↦ (b, false, record src { off = src.off + 1 })
]

unfoldable pub next_uint8 : ZeroCopySource → ℕ × Bool × ZeroCopySource
next_uint8 src = next_byte src

-- (data, irregular, eof)
unfoldable pub next_bool : ZeroCopySource → Bool × Bool × Bool × ZeroCopySource
next_bool src =
    let (val, eof, src') = next_byte src in
    if val == 0
    then (false, false, eof, src')
    else if val == 1
    then (true, false, eof, src')
    else (true, true, eof, src')

-- `BackUp`: the subtraction wraps around.
unfoldable pub back_up : ZeroCopySource → ℕ → ZeroCopySource
back_up src n = record src { off = (src.off + u64_mod - n) % u64_mod }

-- A little-endian word of `n` bytes; 0 at the end of the data.
unfoldable pub next_word : ℕ → ZeroCopySource → ℕ × Bool × ZeroCopySource
next_word n src =
    let (buf, eof, src') = next_bytes src n in
    if eof then (0, true, src') else (le_value buf, eof, src')

unfoldable pub next_uint16 : ZeroCopySource → ℕ × Bool × ZeroCopySource
next_uint16 = next_word 2

unfoldable pub next_uint32 : ZeroCopySource → ℕ × Bool × ZeroCopySource
next_uint32 = next_word 4

unfoldable pub next_uint64 : ZeroCopySource → ℕ × Bool × ZeroCopySource
next_uint64 = next_word 8

unfoldable pub next_int16 : ZeroCopySource → ℤ × Bool × ZeroCopySource
next_int16 src = let (val, eof, src') = next_uint16 src in (to_signed 0x1_0000 val, eof, src')

unfoldable pub next_int32 : ZeroCopySource → ℤ × Bool × ZeroCopySource
next_int32 src = let (val, eof, src') = next_uint32 src in (to_signed 0x1_0000_0000 val, eof, src')

unfoldable pub next_int64 : ZeroCopySource → ℤ × Bool × ZeroCopySource
next_int64 src = let (val, eof, src') = next_uint64 src in (to_signed u64_mod val, eof, src')

unfoldable pub get_var_uint_size : ℕ → ℕ
get_var_uint_size value =
    if ltb value 0xfd
    then 1
    else if leb value 0xffff
    then 3
    else if leb value 0xffff_ffff
    then 5
    else 9

-- The end of `NextVarUint`, behind a word that was read with its flag.
unfoldable pub finish_var_uint : ℕ → ℕ × Bool × ZeroCopySource → VarRead ℕ
finish_var_uint size (val, eof, src) =
    if eof
    then record { value = 0; size = 0; irregular = false; eof = true; source = src }
    else record {
      value = val;
      size = size;
      irregular = not (size == get_var_uint_size val);
      eof = false;
      source = src;
    }

unfoldable pub next_var_uint : ZeroCopySource → VarRead ℕ
next_var_uint src =
    let (fb, eof, src') = next_byte src in
    if eof
    then finish_var_uint 0 (0, true, src')
    else if fb == 0xfd
    then finish_var_uint 3 (next_uint16 src')
    else if fb == 0xfe
    then finish_var_uint 5 (next_uint32 src')
    else if fb == 0xff
    then finish_var_uint 9 (next_uint64 src')
    else finish_var_uint 1 (fb, false, src')

-- The end of `NextVarBytes`, behind the count.
unfoldable pub finish_var_bytes : VarRead ℕ → VarRead (List ℕ)
finish_var_bytes r =
    let count = r.value in
    let size = (r.size + count) % u64_mod in
    let (buf, eof, src) = next_bytes r.source count in
    if ltb 0 count
    then record { value = buf; size = size; irregular = r.irregular; eof = eof; source = src }
    else record { value = []; size = size; irregular = r.irregular; eof = r.eof; source = r.source }

unfoldable pub next_var_bytes : ZeroCopySource → VarRead (List ℕ)
next_var_bytes src = finish_var_bytes (next_var_uint src)

-- `NextString`: a Go string is its bytes.
unfoldable pub next_string : ZeroCopySource → VarRead (List ℕ)
next_string src = next_var_bytes src

-- An array of `n` bytes, all zero at the end of the data.
unfoldable pub next_array : ℕ → List ℕ → ZeroCopySource → List ℕ × Bool × ZeroCopySource
next_array n zeros src =
    let (buf, eof, src') = next_bytes src n in if eof then (zeros, true, src') else (buf, eof, src')

unfoldable pub next_address : ZeroCopySource → List ℕ × Bool × ZeroCopySource
next_address = next_array 20 (replicate 20 0)

unfoldable pub next_i128 : ZeroCopySource → List ℕ × Bool × ZeroCopySource
next_i128 = next_array 16 (replicate 16 0)

unfoldable pub next_hash : ZeroCopySource → List ℕ × Bool × ZeroCopySource
next_hash = next_array 32 (replicate 32 0)
