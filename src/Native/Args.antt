-- ===== src/Native/Args.antt =====
-- node/smartcontract/service/native/utils/serialization.go and ont/states.go: the arguments of a
-- native contract. An `Encode` function is the bytes it adds to the sink; a `Decode` function takes
-- the source and returns the source behind what it read.
pub mod RoundTrip
pub mod Size
use layer.Base.{
  ℕ, zero, suc, ◌%◌, Bool, not, List, [], ◌∷◌, ◌++◌, length, ◌==◌, if◌then◌else◌, Outcome, ok, err,
  ◌>>=◌, ◌>>◌, fail_if,
}
use layer.Base.Int.{ℤ, pos, negsuc, to_signed}
use layer.Common.SafeMath.{u64_mod}
use layer.Common.Bytes.{var_bytes}
use layer.Common.BigInt.{big_int_to_neo_bytes, big_int_from_neo_bytes}
use layer.Common.Source.{
  ZeroCopySource, VarRead, next_var_bytes, next_string, next_uint64, next_uint32, next_bool,
}
use layer.Native.Token.{State, TransferFrom}

pub data DecodeError : Type 0 where
  unexpected_eof irregular_data negative_number wrong_length : DecodeError

unfoldable pub encode_address : List ℕ → List ℕ
encode_address addr = var_bytes addr

unfoldable pub encode_var_uint : ℕ → List ℕ
encode_var_uint value = var_bytes (big_int_to_neo_bytes (to_signed u64_mod value))

unfoldable pub encode_var_bytes : List ℕ → List ℕ
encode_var_bytes v = var_bytes v

unfoldable pub encode_string : List ℕ → List ℕ
encode_string str = var_bytes str

-- The two tests behind a read of a counted byte string.
unfoldable pub regular : VarRead (List ℕ) → Outcome DecodeError (List ℕ × ZeroCopySource)
regular r =
    fail_if r.eof unexpected_eof >> (fail_if r.irregular irregular_data >> ok (r.value, r.source))

unfoldable pub decode_var_bytes : ZeroCopySource → Outcome DecodeError (List ℕ × ZeroCopySource)
decode_var_bytes source = regular (next_var_bytes source)

unfoldable pub decode_string : ZeroCopySource → Outcome DecodeError (List ℕ × ZeroCopySource)
decode_string source = regular (next_string source)

-- `v.Uint64()` of a number that is not negative.
unfoldable pub to_uint64 : ℤ → ZeroCopySource → Outcome DecodeError (ℕ × ZeroCopySource)
to_uint64 (pos n) source = ok (n % u64_mod, source)
to_uint64 (negsuc n) source = err negative_number

unfoldable pub decode_var_uint : ZeroCopySource → Outcome DecodeError (ℕ × ZeroCopySource)
decode_var_uint source = do
  r ← regular (next_var_bytes source)
  to_uint64 (big_int_from_neo_bytes r.0) r.1

unfoldable pub address_parse_from_bytes : List ℕ → Outcome DecodeError (List ℕ)
address_parse_from_bytes f = fail_if (not (length f == 20)) wrong_length >> ok f

unfoldable pub decode_address : ZeroCopySource → Outcome DecodeError (List ℕ × ZeroCopySource)
decode_address source = do
  r ← regular (next_var_bytes source)
  addr ← address_parse_from_bytes r.0
  ok (addr, r.1)

unfoldable pub decode_uint64 : ZeroCopySource → Outcome DecodeError (ℕ × ZeroCopySource)
decode_uint64 source =
    let (data_read, eof, source') = next_uint64 source in
    fail_if eof unexpected_eof >> ok (data_read, source')

unfoldable pub decode_uint32 : ZeroCopySource → Outcome DecodeError (ℕ × ZeroCopySource)
decode_uint32 source =
    let (data_read, eof, source') = next_uint32 source in
    fail_if eof unexpected_eof >> ok (data_read, source')

unfoldable pub decode_bool : ZeroCopySource → Outcome DecodeError (Bool × ZeroCopySource)
decode_bool source =
    let (data_read, irregular, eof, source') = next_bool source in
    fail_if eof unexpected_eof >> (fail_if irregular irregular_data >> ok (data_read, source'))

unfoldable pub state_bytes : State → List ℕ
state_bytes state =
    encode_address state.from ++ (encode_address state.to ++ encode_var_uint state.value)

unfoldable pub deserialize_state : ZeroCopySource → Outcome DecodeError (State × ZeroCopySource)
deserialize_state source = do
  f ← decode_address source
  t ← decode_address f.1
  v ← decode_var_uint t.1
  ok (record { from = f.0; to = t.0; value = v.0 }, v.1)

unfoldable pub transfer_from_bytes : TransferFrom → List ℕ
transfer_from_bytes state =
    encode_address state.sender
    ++ (encode_address state.from ++ (encode_address state.to ++ encode_var_uint state.value))

unfoldable pub deserialize_transfer_from :
    ZeroCopySource → Outcome DecodeError (TransferFrom × ZeroCopySource)
deserialize_transfer_from source = do
  s ← decode_address source
  f ← decode_address s.1
  t ← decode_address f.1
  v ← decode_var_uint t.1
  ok (record { sender = s.0; from = f.0; to = t.0; value = v.0 }, v.1)

-- `Transfers`: the states behind their number.
unfoldable pub states_bytes : List State → List ℕ
states_bytes [] = []
states_bytes (v ∷ vs) = state_bytes v ++ states_bytes vs

unfoldable pub transfers_bytes : List State → List ℕ
transfers_bytes states = encode_var_uint (length states) ++ states_bytes states

unfoldable pub deserialize_states :
    ℕ → ZeroCopySource → Outcome DecodeError (List State × ZeroCopySource)
deserialize_states zero source = ok ([], source)
deserialize_states (suc n) source = do
  v ← deserialize_state source
  vs ← deserialize_states n v.1
  ok (v.0 ∷ vs.0, vs.1)

unfoldable pub deserialize_transfers :
    ZeroCopySource → Outcome DecodeError (List State × ZeroCopySource)
deserialize_transfers source = do n ← decode_var_uint source; deserialize_states n.0 n.1
