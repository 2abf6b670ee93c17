-- ===== src/Native/Args/Size.antt =====
-- Encoded arguments are short.
use layer.Base.{ℕ, ◌+◌, ◌%◌, ◌≤◌, ◌≡◌, arith, true, List, ◌++◌, length, length-append, ltb}
use layer.Base.Int.{pos, to_signed}
use layer.Common.SafeMath.{u64_mod}
use layer.Common.Words.{length-le_bytes}
use layer.Common.Bytes.{var_bytes, var_uint_bytes}
use layer.Common.Source.Reading.{InMemory}
use layer.Common.BigInt.{big_int_to_neo_bytes}
use layer.Common.BigInt.Size.{length-big_int_to_neo_bytes}
use layer.Native.Token.{State}
use layer.Native.Args.{encode_address, encode_var_uint, state_bytes}
use layer.Native.Args.RoundTrip.{IsState, IsInt64}

length-var_uint_bytes : (n : ℕ) → length (var_uint_bytes n) ≤ 9
unfolding var_uint_bytes
length-var_uint_bytes n = ground (
  arith,
  length-le_bytes 2 (n % 0x1_0000),
  length-le_bytes 4 (n % 0x1_0000_0000),
  length-le_bytes 8 n,
)

length-var_bytes : (p : List ℕ) → length (var_bytes p) ≤ 9 + length p
unfolding var_bytes
length-var_bytes p =
    omega (arith, length-append (var_uint_bytes (length p)) p, length-var_uint_bytes (length p))

length-encode_var_uint : (v : ℕ) → IsInt64 v → length (encode_var_uint v) ≤ 18
unfolding encode_var_uint to_signed
length-encode_var_uint v h =
    let positive : ltb (v + v) u64_mod ≡ true = ground arith in
    rw positive (
      omega (
        arith,
        length-var_bytes (big_int_to_neo_bytes (pos v)),
        length-big_int_to_neo_bytes v 8 (omega arith),
      ))

pub state_bytes-InMemory : (state : State) → IsState state → InMemory (state_bytes state)
unfolding state_bytes encode_address
state_bytes-InMemory state (hf, ht, hv) =
    let value = encode_var_uint state.value in
    let to = var_bytes state.to in
    omega (
      arith,
      length-append (var_bytes state.from) (to ++ value),
      length-append to value,
      length-var_bytes state.from,
      length-var_bytes state.to,
      length-encode_var_uint state.value hv,
    )
