-- ===== src/Common/Sink.antt =====
-- node/common/zero_copy_sink.go: a growing byte buffer. The slice `buf` is a backing array `mem`,
-- whose length is the slice's capacity, and the length `len` of the part in use. `none` is a panic.
-- The bytes of `mem` behind `len` are what earlier writes left there.
pub mod Append
use layer.Base.{
  ℕ, ◌+◌, ◌-◌, ◌*◌, ◌%◌, Bool, true, false, Option, none, some, List, [], ◌∷◌, ◌++◌, length, take,
  drop, replicate, ltb, leb, if◌then◌else◌,
}
use layer.Base.Int.{ℤ, to_unsigned}
use layer.Common.SafeMath.{u64_mod}
use layer.Common.Words.{le_bytes}

pub record ZeroCopySink : Type 0 where
  pub mem : List ℕ
  pub len : ℕ

infixl 5 ◌>>=◌
abbrev ◌>>=◌ : {A B : Type 0} → Option A → (A → Option B) → Option B
none >>= f = none
some a >>= f = f a

abbrev pub max_int : ℕ
max_int = 0x7fff_ffff_ffff_ffff

abbrev pub capacity : ZeroCopySink → ℕ
capacity sink = length sink.mem

-- `NewZeroCopySink` of a slice, and of nil.
unfoldable pub new_sink : List ℕ → ℕ → ZeroCopySink
new_sink mem len = record { mem = mem; len = len }

unfoldable pub empty_sink : ZeroCopySink
empty_sink = new_sink (replicate 512 0) 0

-- `Bytes`
unfoldable pub bytes : ZeroCopySink → List ℕ
bytes sink = take sink.len sink.mem

-- `Size`
unfoldable pub size : ZeroCopySink → ℕ
size sink = sink.len

unfoldable pub reset : ZeroCopySink → ZeroCopySink
reset sink = record sink { len = 0 }

unfoldable pub try_grow_by_reslice : ZeroCopySink → ℕ → Option (ZeroCopySink × ℕ)
try_grow_by_reslice sink n =
    if leb n (capacity sink - sink.len)
    then some (record sink { len = sink.len + n }, sink.len)
    else none

-- The allocation itself is taken to succeed.
unfoldable pub grow : ZeroCopySink → ℕ → Option (ZeroCopySink × ℕ)
grow sink n = elim (try_grow_by_reslice sink n) [
  | some r ↦ some r
  | none ↦
      let l = sink.len in
      let c = capacity sink in
      if ltb max_int (c + c + n)
      then none
      else some (record { mem = bytes sink ++ replicate (2 * c + n - l) 0; len = l + n }, l)
]

-- Where the new part begins. For an `n` from 2^63 on `int(n)` is negative, and the reslicing panics.
unfoldable pub next_bytes : ZeroCopySink → ℕ → Option (ZeroCopySink × ℕ)
next_bytes sink n =
    if ltb max_int n
    then none
    else elim (try_grow_by_reslice sink n) [ some r ↦ some r | none ↦ grow sink n ]

-- `copy(buf[m:], p)`, and the stores into `buf[m:]`.
unfoldable pub overwrite : ZeroCopySink → ℕ → List ℕ → ZeroCopySink
overwrite sink m p = record sink { mem = take m sink.mem ++ (p ++ drop (m + length p) sink.mem) }

-- `BackUp`. For an `n` from 2^63 on `int(n)` is negative, and the slice grows.
unfoldable pub back_up : ZeroCopySink → ℕ → Option ZeroCopySink
back_up sink n =
    if leb n max_int
    then (if leb n sink.len then some (record sink { len = sink.len - n }) else none)
    else if leb (sink.len + (u64_mod - n)) (capacity sink)
    then some (record sink { len = sink.len + (u64_mod - n) })
    else none

unfoldable pub write_bytes : ZeroCopySink → List ℕ → Option ZeroCopySink
write_bytes sink p = do (sink', m) ← next_bytes sink (length p); some (overwrite sink' m p)

-- `WriteUint8` and `WriteByte`.
unfoldable pub write_uint8 : ZeroCopySink → ℕ → Option ZeroCopySink
write_uint8 sink c = do (sink', m) ← next_bytes sink 1; some (overwrite sink' m (c ∷ []))

unfoldable pub write_bool : ZeroCopySink → Bool → Option ZeroCopySink
write_bool sink input = if input then write_uint8 sink 1 else write_uint8 sink 0

unfoldable pub write_word : ℕ → ZeroCopySink → ℕ → Option ZeroCopySink
write_word n sink v = do (sink', m) ← next_bytes sink n; some (overwrite sink' m (le_bytes n v))

unfoldable pub write_uint16 : ZeroCopySink → ℕ → Option ZeroCopySink
write_uint16 = write_word 2

unfoldable pub write_uint32 : ZeroCopySink → ℕ → Option ZeroCopySink
write_uint32 = write_word 4

unfoldable pub write_uint64 : ZeroCopySink → ℕ → Option ZeroCopySink
write_uint64 = write_word 8

unfoldable pub write_int16 : ZeroCopySink → ℤ → Option ZeroCopySink
write_int16 sink v = write_uint16 sink (to_unsigned 0x1_0000 v)

unfoldable pub write_int32 : ZeroCopySink → ℤ → Option ZeroCopySink
write_int32 sink v = write_uint32 sink (to_unsigned 0x1_0000_0000 v)

unfoldable pub write_int64 : ZeroCopySink → ℤ → Option ZeroCopySink
write_int64 sink v = write_uint64 sink (to_unsigned u64_mod v)

-- What `WriteVarUint` stores into the nine bytes, and how many of them it keeps.
unfoldable pub var_uint_store : ℕ → List ℕ × ℕ
var_uint_store input =
    if ltb input 0xfd
    then (input % 256 ∷ [], 1)
    else if leb input 0xffff
    then (0xfd ∷ le_bytes 2 (input % 0x1_0000), 3)
    else if leb input 0xffff_ffff
    then (0xfe ∷ le_bytes 4 (input % 0x1_0000_0000), 5)
    else (0xff ∷ le_bytes 8 input, 9)

unfoldable pub write_var_uint : ZeroCopySink → ℕ → Option (ℕ × ZeroCopySink)
write_var_uint sink input = do
  (sink', m) ← next_bytes sink 9
  let stored = var_uint_store input
  sink'' ← back_up (overwrite sink' m stored.0) (9 - stored.1)
  some (stored.1, sink'')

-- `WriteVarBytes`, and `WriteString` of a string's bytes.
unfoldable pub write_var_bytes : ZeroCopySink → List ℕ → Option (ℕ × ZeroCopySink)
write_var_bytes sink input = do
  (n, sink') ← write_var_uint sink (length input)
  sink'' ← write_bytes sink' input
  some ((n + length input) % u64_mod, sink'')

-- Arrays are written whole.
unfoldable pub write_address : ZeroCopySink → List ℕ → Option ZeroCopySink
write_address sink addr = write_bytes sink addr

unfoldable pub write_hash : ZeroCopySink → List ℕ → Option ZeroCopySink
write_hash sink hash = write_bytes sink hash

unfoldable pub write_u128 : ZeroCopySink → List ℕ → Option ZeroCopySink
write_u128 sink u128 = write_bytes sink u128

unfoldable pub write_i128 : ZeroCopySink → List ℕ → Option ZeroCopySink
write_i128 sink i128 = write_bytes sink i128
