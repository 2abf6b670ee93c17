-- ===== src/Ledger/Program.antt =====
-- node/core/program/program.go: the scripts that hold signatures and public keys. A builder is the
-- bytes that it has pushed, a parser is its source. The order of `SortPublicKeys` and `Int64` of a
-- big.Int are arguments.
pub mod Reads
pub mod Params
pub mod Keys
pub mod Info
use layer.Base.{
  ℕ, zero, suc, ◌+◌, ◌-◌, ◌%◌, Bool, true, false, not, ◌&&◌, ◌||◌, List, [], ◌∷◌, ◌++◌, length, ltb,
  leb, ◌==◌, if◌then◌else◌, Option, none, some, Outcome, ok, err, ◌>>=◌, ◌>>◌, fail_if,
}
use mathlib.Core.List.{reverse}
use layer.Base.Int.{ℤ, pos, negsuc}
use layer.Common.Words.{le_bytes, le_value}
use layer.Common.BigInt.{big_int_to_neo_bytes, big_int_from_neo_bytes, last_byte}
use layer.Common.Source.{
  ZeroCopySource, new_source, unread, next_byte, next_word, next_bytes, back_up,
}
use layer.Ledger.Header.{PublicKeys}

-- `panicked` is the panic of PushBytes, `out_of_fuel` no error of the code.
pub data ProgramError : Type 0 where
  panicked unexpected_eof unexpected_opcode num_out_of_range expected_eof : ProgramError
  invalid_key wrong_program missing_length keys_unmatched wrong_param unsupported : ProgramError
  out_of_fuel : ProgramError

abbrev pub pushbytes75 : ℕ
pushbytes75 = 0x4b

abbrev pub pushdata1 : ℕ
pushdata1 = 0x4c

abbrev pub pushdata2 : ℕ
pushdata2 = 0x4d

abbrev pub pushdata4 : ℕ
pushdata4 = 0x4e

abbrev pub push1 : ℕ
push1 = 0x51

abbrev pub checksig : ℕ
checksig = 0xac

abbrev pub checkmultisig : ℕ
checkmultisig = 0xae

-- What PushBytes writes in front of data of `n` bytes.
unfoldable pub push_prefix : ℕ → List ℕ
push_prefix n =
    if leb n pushbytes75
    then n ∷ []
    else if ltb n 0x100
    then pushdata1 ∷ n ∷ []
    else if ltb n 0x1_0000
    then pushdata2 ∷ le_bytes 2 n
    else pushdata4 ∷ le_bytes 4 (n % 0x1_0000_0000)

unfoldable pub push_bytes : List ℕ → Outcome ProgramError (List ℕ)
push_bytes data' = fail_if (length data' == 0) panicked >> ok (push_prefix (length data') ++ data')

unfoldable pub push_num : ℕ → Outcome ProgramError (List ℕ)
push_num num =
    if num == 0
    then ok (0 ∷ [])
    else if leb num 16
    then ok ((num - 1 + push1) ∷ [])
    else push_bytes (big_int_to_neo_bytes (pos num))

-- `ProgramFromParams` and `EncodeParamProgramInto`.
unfoldable pub program_from_params : List (List ℕ) → Outcome ProgramError (List ℕ)
program_from_params [] = ok []
program_from_params (sig ∷ sigs) = do
  first ← push_bytes sig
  rest ← program_from_params sigs
  ok (first ++ rest)

unfoldable pub read_op_code : ZeroCopySource → Outcome ProgramError (ℕ × ZeroCopySource)
read_op_code source =
    let (code, eof, source') = next_byte source in fail_if eof unexpected_eof >> ok (code, source')

unfoldable pub peek_op_code : ZeroCopySource → Outcome ProgramError (ℕ × ZeroCopySource)
peek_op_code source = do r ← read_op_code source; ok (r.0, back_up r.1 1)

unfoldable pub expect_eof : ZeroCopySource → Outcome ProgramError (Unit {0})
expect_eof source = fail_if (not (unread source == 0)) expected_eof

unfoldable pub word_or_eof : ℕ → ZeroCopySource → Outcome ProgramError (ℕ × ZeroCopySource)
word_or_eof n source =
    let (val, eof, source') = next_word n source in fail_if eof unexpected_eof >> ok (val, source')

-- `keylen`
unfoldable pub key_length : ℕ → ZeroCopySource → Outcome ProgramError (ℕ × ZeroCopySource)
key_length code source =
    if code == pushdata4
    then word_or_eof 4 source
    else if code == pushdata2
    then word_or_eof 2 source
    else if code == pushdata1
    then read_op_code source
    else if leb code pushbytes75 && leb 1 code
    then ok (code - 1 + 1, source)
    else err unexpected_opcode

unfoldable pub take_bytes : ℕ → ZeroCopySource → Outcome ProgramError (List ℕ × ZeroCopySource)
take_bytes n source =
    let (buf, eof, source') = next_bytes source n in fail_if eof unexpected_eof >> ok (buf, source')

unfoldable pub read_bytes : ZeroCopySource → Outcome ProgramError (List ℕ × ZeroCopySource)
read_bytes source = do code ← read_op_code source; n ← key_length code.0 code.1; take_bytes n.0 n.1

unfoldable pub is_small_num : ℕ → Bool
is_small_num code = leb push1 code && leb (code + 1 - push1) 16

unfoldable pub num_in_range : ℤ → Outcome ProgramError ℕ
num_in_range (negsuc n) = err num_out_of_range
num_in_range (pos n) = fail_if (ltb 0xffff n || leb n 16) num_out_of_range >> ok n

-- `GetParamInfo`, with fuel for its rounds.
unfoldable pub read_params :
    ℕ → ZeroCopySource → Outcome ProgramError (List (List ℕ) × ZeroCopySource)
read_params zero source = err out_of_fuel
read_params (suc fuel) source =
    let rest : Outcome ProgramError (List (List ℕ) × ZeroCopySource) = (do
      sig ← read_bytes source
      sigs ← read_params fuel sig.1
      ok (sig.0 ∷ sigs.0, sigs.1)) in
    if unread source == 0 then ok ([], source) else rest

unfoldable pub get_param_info : List ℕ → Outcome ProgramError (List (List ℕ))
get_param_info program = do
  sigs ← read_params (suc (length program)) (new_source program)
  ok sigs.0

pub record ProgramInfo (K : Type 0) : Type 0 where
  pub pub_keys : List K
  pub m : ℕ

-- What the loop of `GetProgramInfo` appends at a code other than CHECKMULTISIG.
unfoldable pub read_buffer : ℕ → ZeroCopySource → Outcome ProgramError (List ℕ × ZeroCopySource)
read_buffer code source =
    if code == 0
    then (do r ← read_op_code source; ok (big_int_to_neo_bytes (pos 0), r.1))
    else if is_small_num code
    then (do r ← read_op_code source; ok (big_int_to_neo_bytes (pos (code + 1 - push1)), r.1))
    else read_bytes source

-- A round of the loop at the code that it has peeked, and the rounds behind it.
unfoldable pub read_round :
    (ZeroCopySource → Outcome ProgramError (List (List ℕ) × ZeroCopySource))
    → ℕ
    → ZeroCopySource
    → Outcome ProgramError (List (List ℕ) × ZeroCopySource)
read_round again code source =
    if code == checkmultisig then (do r ← read_op_code source; ok ([], r.1)) else (do
      buff ← read_buffer code source
      buffers ← again buff.1
      ok (buff.0 ∷ buffers.0, buffers.1))

unfoldable pub read_buffers :
    ℕ → ZeroCopySource → Outcome ProgramError (List (List ℕ) × ZeroCopySource)
read_buffers zero source = err out_of_fuel
read_buffers (suc fuel) source =
    peek_op_code source >>= λ code. read_round (read_buffers fuel) code.0 code.1

-- `buffers[len(buffers)-1]` and those before it.
unfoldable pub split_last : List ℕ → List (List ℕ) → List (List ℕ) × List ℕ
split_last b [] = ([], b)
split_last b (c ∷ buffers) = let rest = split_last c buffers in (b ∷ rest.0, rest.1)

-- `int64(len(info.PubKeys)) != n`
unfoldable pub is_count : ℤ → ℕ → Bool
is_count (pos n) len = len == n
is_count (negsuc n) len = false

-- `!(1 <= m && m <= n && n > 1 && n <= MULTI_SIG_MAX_PUBKEY_SIZE)`
unfoldable pub wrong_counts : ℕ → ℕ → Bool
wrong_counts m n = not (leb 1 m && leb m n && ltb 1 n && leb n 16)

-- `ReadNum`, at the code that it has peeked.
unfoldable pub read_num_at :
    (ℤ → ℤ) → ℕ → ZeroCopySource → Outcome ProgramError (ℕ × ZeroCopySource)
read_num_at int64 code source =
    if code == 0
    then (do r ← read_op_code source; ok (0, r.1))
    else if is_small_num code
    then (do r ← read_op_code source; ok (code + 1 - push1, r.1))
    else (do
      buff ← read_bytes source
      num ← num_in_range (int64 (big_int_from_neo_bytes buff.0))
      ok (num, buff.1))

unfoldable pub read_num : (ℤ → ℤ) → ZeroCopySource → Outcome ProgramError (ℕ × ZeroCopySource)
read_num int64 source = peek_op_code source >>= λ code. read_num_at int64 code.0 code.1

-- `program[:len(program)-1]` and `program[len(program)-1]`, of a program of the byte b and more.
unfoldable pub without_last : ℕ → List ℕ → List ℕ
without_last b [] = []
without_last b (c ∷ bs) = b ∷ without_last c bs

unfoldable pub key_from : {K : Type 0} → Option K → Outcome ProgramError K
key_from none = err invalid_key
key_from (some key) = ok key

module _ {K : Type 0} (keys : PublicKeys K) where
  unfoldable pub program_from_pub_key : K → Outcome ProgramError (List ℕ)
  program_from_pub_key pubkey = do
    key ← push_bytes (keys.serialize pubkey)
    ok (key ++ (checksig ∷ []))

  unfoldable pub push_keys : List K → Outcome ProgramError (List ℕ)
  push_keys [] = ok []
  push_keys (pubkey ∷ pubkeys) = do
    first ← push_bytes (keys.serialize pubkey)
    rest ← push_keys pubkeys
    ok (first ++ rest)

  unfoldable pub program_from_multi_pub_key :
      (List K → List K) → List K → ℤ → Outcome ProgramError (List ℕ)
  program_from_multi_pub_key sort pubkeys (negsuc m) = err wrong_param
  program_from_multi_pub_key sort pubkeys (pos m) =
      fail_if (wrong_counts m (length pubkeys)) wrong_param >> (do
        let sorted = sort pubkeys
        m' ← push_num m
        ks ← push_keys sorted
        n ← push_num (length sorted % 0x1_0000)
        ok (m' ++ (ks ++ (n ++ (checkmultisig ∷ [])))))

  unfoldable pub read_pub_key : ZeroCopySource → Outcome ProgramError (K × ZeroCopySource)
  read_pub_key source = do
    buf ← read_bytes source
    key ← key_from (keys.deserialize buf.0)
    ok (key, buf.1)

  -- `for i := 0; i < int(m); i++`
  unfoldable pub read_keys : ℕ → ZeroCopySource → Outcome ProgramError (List K × ZeroCopySource)
  read_keys zero source = ok ([], source)
  read_keys (suc m) source = do
    key ← read_pub_key source
    rest ← read_keys m key.1
    ok (key.0 ∷ rest.0, rest.1)

  unfoldable pub keys_from : List (List ℕ) → Outcome ProgramError (List K)
  keys_from [] = ok []
  keys_from (buf ∷ bufs) = do
    key ← key_from (keys.deserialize buf)
    rest ← keys_from bufs
    ok (key ∷ rest)

  unfoldable pub single_key_info : ZeroCopySource → Outcome ProgramError (ProgramInfo K)
  single_key_info source = do
    key ← read_pub_key source
    expect_eof key.1
    ok (record { pub_keys = key.0 ∷ []; m = 1 })

  -- The end of `GetProgramInfo`, with the buffers before the last one and the last.
  unfoldable pub counted_info :
      (ℤ → ℤ) → ℕ → List K → List (List ℕ) × List ℕ → Outcome ProgramError (ProgramInfo K)
  counted_info int64 m first (bufs, last) = do
    let n = int64 (pos (le_value (reverse last)))
    rest ← keys_from bufs
    let pubkeys = first ++ rest
    fail_if (not (is_count n (length pubkeys))) keys_unmatched
    fail_if (wrong_counts m (length pubkeys)) wrong_param
    ok (record { pub_keys = pubkeys; m = m })

  -- What follows the loop, with the keys that were read in front of it.
  unfoldable pub info_from :
      (ℤ → ℤ) → ℕ → List K → List (List ℕ) → Outcome ProgramError (ProgramInfo K)
  info_from int64 m first [] = err missing_length
  info_from int64 m first (b ∷ buffers) = counted_info int64 m first (split_last b buffers)

  unfoldable pub multi_key_info :
      (ℤ → ℤ) → ℕ → ZeroCopySource → Outcome ProgramError (ProgramInfo K)
  multi_key_info int64 fuel source = do
    m ← read_num int64 source
    first ← read_keys m.0 m.1
    buffers ← read_buffers fuel first.1
    expect_eof buffers.1
    info_from int64 m.0 first.0 buffers.0

  unfoldable pub get_program_info : (ℤ → ℤ) → List ℕ → Outcome ProgramError (ProgramInfo K)
  get_program_info int64 [] = err wrong_program
  get_program_info int64 (b ∷ bs) =
      fail_if (leb (suc (length bs)) 2) wrong_program
      >> (if last_byte b bs == checksig
          then single_key_info (new_source (without_last b bs))
          else if last_byte b bs == checkmultisig
          then multi_key_info int64 (suc (suc (length bs))) (new_source (b ∷ bs))
          else err unsupported)
