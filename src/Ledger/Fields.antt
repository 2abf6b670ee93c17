-- ===== src/Ledger/Fields.antt =====
-- How the `Deserialization` methods of node/core/types and node/core/payload use the source. A flag
-- that a later read overwrites before it is tested is not kept.
pub mod Reads
use layer.Base.{ℕ, Bool, ◌+◌, ◌-◌, ◌%◌, List, [], ◌∷◌, Outcome, ok, err, ◌>>=◌, ◌>>◌, fail_if}
use layer.Common.SafeMath.{u64_mod}
use layer.Common.Source.{
  ZeroCopySource, VarRead, next_byte, next_word, next_bytes, next_hash, next_address, next_var_uint,
  next_var_bytes, back_up,
}

pub data Error : Type 0 where
  unexpected_eof irregular_data : Error
  invalid_vm_flags code_too_long name_too_long version_too_long : Error
  author_too_long email_too_long description_too_long : Error
  unsupported_type attributes_not_zero too_many_signatures too_long : Error
  wrong_public_key duplicated_transaction mismatched_root : Error

unfoldable pub byte_field : ZeroCopySource → Outcome Error (ℕ × ZeroCopySource)
byte_field source = let (val, eof, source') = next_byte source in ok (val, source')

-- `NextUint32` and `NextUint64`, at n = 4 and 8.
unfoldable pub word_field : ℕ → ZeroCopySource → Outcome Error (ℕ × ZeroCopySource)
word_field n source = let (val, eof, source') = next_word n source in ok (val, source')

unfoldable pub word_last : ℕ → ZeroCopySource → Outcome Error (ℕ × ZeroCopySource)
word_last n source =
    let (val, eof, source') = next_word n source in fail_if eof unexpected_eof >> ok (val, source')

unfoldable pub hash_field : ZeroCopySource → Outcome Error (List ℕ × ZeroCopySource)
hash_field source = let (val, eof, source') = next_hash source in ok (val, source')

-- Bytes and an address whose end flag is tested.
unfoldable pub bytes_last : ℕ → ZeroCopySource → Outcome Error (List ℕ × ZeroCopySource)
bytes_last n source =
    let (buf, eof, source') = next_bytes source n in fail_if eof unexpected_eof >> ok (buf, source')

unfoldable pub address_last : ZeroCopySource → Outcome Error (List ℕ × ZeroCopySource)
address_last source =
    let (addr, eof, source') = next_address source in
    fail_if eof unexpected_eof >> ok (addr, source')

-- A counted read where only irregular data is an error.
unfoldable pub regular_field : {A : Type 0} → VarRead A → Outcome Error (A × ZeroCopySource)
regular_field r = fail_if r.irregular irregular_data >> ok (r.value, r.source)

-- Both flags are tested, the end first.
unfoldable pub whole_field : {A : Type 0} → VarRead A → Outcome Error (A × ZeroCopySource)
whole_field r = fail_if r.eof unexpected_eof >> regular_field r

-- Both flags are tested, the irregular data first.
unfoldable pub last_field : {A : Type 0} → VarRead A → Outcome Error (A × ZeroCopySource)
last_field r =
    fail_if r.irregular irregular_data >> (fail_if r.eof unexpected_eof >> ok (r.value, r.source))

-- How far the source has moved since it stood at `pstart`, and the bytes it passed: `BackUp`, then
-- `NextBytes`.
unfoldable pub passed : ℕ → ZeroCopySource → ℕ
passed pstart source = (source.off + u64_mod - pstart) % u64_mod

unfoldable pub read_again : ZeroCopySource → ℕ → List ℕ × ZeroCopySource
read_again source n = let (raw, eof, source') = next_bytes (back_up source n) n in (raw, source')

-- A read that keeps its bytes; `check` is the test of their number in between.
unfoldable pub with_raw :
    {A : Type 0}
    → (ℕ → Outcome Error (Unit {0}))
    → (ZeroCopySource → Outcome Error (A × ZeroCopySource))
    → ZeroCopySource
    → Outcome Error ((A × List ℕ) × ZeroCopySource)
with_raw check decode source = do
  r ← decode source
  let n = passed source.off r.1
  let again = read_again r.1 n
  check n >> ok ((r.0, again.0), again.1)
