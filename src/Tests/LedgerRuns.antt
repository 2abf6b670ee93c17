-- ===== src/Tests/LedgerRuns.antt =====
-- A block of one transaction, with public keys that are byte strings.
use layer.Base.{
  ℕ, ◌*◌, ◌^◌, ◌≤◌, ◌<◌, ◌≡◌, refl, arith, some, List, [], ◌∷◌, All, length, replicate, ok,
}
use layer.Common.Bytes.{uint32_bytes, uint64_bytes, var_uint_bytes, var_bytes}
use layer.Common.Words.{le_bytes}
use layer.Common.Source.{ZeroCopySource, new_source}
use layer.Common.Source.Codec.{Reads-whole}
use layer.Ledger.Payload.{invoke_bytes}
use layer.Ledger.MerkleRoot.{compute_merkle_root, levels, tree, compute_merkle_root-tree}
use layer.Ledger.Transaction.{
  RawSig, Unsigned, invoke, invoke_neo_type, transaction_bytes, unsigned_bytes, payload_bytes,
  sig_bytes, sigs_bytes, transaction_from_raw_bytes,
}
use layer.Ledger.Transaction.RoundTrip.{
  IsUnsigned, Fits, signed, transaction_from_raw_bytes-transaction_bytes,
}
use layer.Ledger.Header
use layer.Ledger.Header.{
  PublicKeys, Header, UnsignedHeader, header_bytes, bookkeepers_bytes, sig_data_bytes,
}
use layer.Ledger.Header.RoundTrip.{IsHeader}
use layer.Ledger.Header.Raw.{
  deserialize_raw_header, get_raw_header, deserialize_raw_header-header_bytes,
}
use layer.Ledger.Block.{
  Block, masked, transaction_hashes, raws, block_bytes, deserialize_block, block_from_raw_bytes,
}
use layer.Ledger.Block.RoundTrip.{
  Fresh, is_signed, IsBlock, deserialize_block-Reads, block_from_raw_bytes-block_bytes,
}
use layer.Ledger.Block.Accepted.{HasFewSignatures, deserialize_block-Fresh}
use layer.Tests.{digest}

abbrev key_bytes : PublicKeys (List ℕ)
key_bytes = record {
  serialize = λ k. k;
  deserialize = λ bs. some bs;
  deserialize-serialize = λ k. refl;
}

abbrev call : Unsigned
call = record {
  version = 0;
  tx_type = invoke_neo_type;
  system_id = 1;
  nonce = 77;
  gas_price = 500;
  gas_limit = 20000;
  payer = replicate 20 3;
  payload = invoke (record { code = 0x51 ∷ 0x52 ∷ [] });
  attributes = 0;
}

abbrev sigs : List RawSig
sigs = record { invoke = 1 ∷ []; verify = 2 ∷ [] } ∷ []

call-IsUnsigned : IsUnsigned call
unfolding Fits
call-IsUnsigned = record {
  system_id = omega arith;
  nonce = omega arith;
  gas_price = omega arith;
  gas_limit = omega arith;
  payer = refl;
  payload = refl;
  attributes = refl;
}

call-size : length (transaction_bytes call sigs) ≡ 55
unfolding transaction_bytes unsigned_bytes payload_bytes invoke_bytes sigs_bytes sig_bytes
    uint32_bytes uint64_bytes var_uint_bytes var_bytes le_bytes
call-size = refl

transaction_from_raw_bytes-transaction_bytes_example :
    transaction_from_raw_bytes digest (transaction_bytes call sigs) ≡ ok (signed digest call sigs)
transaction_from_raw_bytes-transaction_bytes_example =
    transaction_from_raw_bytes-transaction_bytes digest call sigs call-IsUnsigned (omega arith)
      (omega (arith, call-size))

abbrev three_hashes : List (List ℕ)
three_hashes = replicate 32 1 ∷ replicate 32 2 ∷ replicate 32 3 ∷ []

compute_merkle_root-tree_example :
    (height : ℕ) × (length three_hashes ≤ 2 ^ height)
    × (2 ^ height < 2 * length three_hashes)
    × (compute_merkle_root digest three_hashes ≡ tree digest height three_hashes)
compute_merkle_root-tree_example =
    compute_merkle_root-tree digest (replicate 32 1) (replicate 32 2 ∷ replicate 32 3 ∷ [])

abbrev head : Header (List ℕ)
head = record {
  unsigned = record {
    version = 0;
    prev_block_hash = replicate 32 5;
    transactions_root =
        compute_merkle_root digest (transaction_hashes (signed digest call sigs ∷ []));
    block_root = replicate 32 6;
    timestamp = 1600000000;
    height = 42;
    consensus_data = 9;
    consensus_payload = [];
    next_bookkeeper = replicate 20 7;
  };
  bookkeepers = (8 ∷ 8 ∷ []) ∷ [];
  sig_data = (9 ∷ 9 ∷ 9 ∷ []) ∷ [];
}

abbrev chain_block : Block (List ℕ)
chain_block = record { header = head; transactions = signed digest call sigs ∷ [] }

root-size : length head.unsigned.transactions_root ≡ 32
unfolding compute_merkle_root levels transaction_hashes
root-size = refl

head-IsHeader : IsHeader key_bytes head
head-IsHeader = record {
  unsigned = record {
    version = omega arith;
    prev_block_hash = refl;
    transactions_root = root-size;
    block_root = refl;
    timestamp = omega arith;
    height = omega arith;
    consensus_data = omega arith;
    next_bookkeeper = refl;
  };
  bookkeepers = omega arith;
  sig_data = omega arith;
}

head-bytes : length (header_bytes key_bytes head) ≡ 146
unfolding header_bytes Header.unsigned_bytes bookkeepers_bytes sig_data_bytes uint32_bytes
    uint64_bytes var_uint_bytes var_bytes le_bytes compute_merkle_root levels transaction_hashes
head-bytes = refl

deserialize_raw_header-header_bytes_example :
    deserialize_raw_header (new_source (header_bytes key_bytes head))
    ≡ ok (
      get_raw_header key_bytes head,
      record { s = header_bytes key_bytes head; off = length (header_bytes key_bytes head) },
    )
deserialize_raw_header-header_bytes_example =
    deserialize_raw_header-header_bytes key_bytes head head-IsHeader (omega (arith, head-bytes))

chain_block-size : length (block_bytes key_bytes digest chain_block) ≡ 205
unfolding block_bytes raws transaction_bytes unsigned_bytes payload_bytes invoke_bytes sigs_bytes
    sig_bytes header_bytes Header.unsigned_bytes bookkeepers_bytes sig_data_bytes uint32_bytes
    uint64_bytes var_uint_bytes var_bytes le_bytes compute_merkle_root levels transaction_hashes
chain_block-size = refl

chain_block-IsBlock : IsBlock digest key_bytes chain_block
unfolding Fresh masked
chain_block-IsBlock = record {
  header = head-IsHeader;
  count = omega arith;
  transactions = (is_signed call-IsUnsigned (omega arith) (omega (arith, call-size)), tt);
  fresh = (refl, tt);
  root = refl;
}

block_from_raw_bytes-block_bytes_example :
    block_from_raw_bytes key_bytes digest (block_bytes key_bytes digest chain_block)
    ≡ ok chain_block
block_from_raw_bytes-block_bytes_example =
    block_from_raw_bytes-block_bytes digest key_bytes chain_block chain_block-IsBlock
      (omega (arith, chain_block-size))

abbrev behind : ZeroCopySource
behind = record {
  s = block_bytes key_bytes digest chain_block;
  off = length (block_bytes key_bytes digest chain_block);
}

deserialize_block-Fresh_example :
    Fresh [] chain_block.transactions
    × All HasFewSignatures chain_block.transactions
    × (chain_block.header.unsigned.transactions_root
        ≡ compute_merkle_root digest (transaction_hashes chain_block.transactions))
deserialize_block-Fresh_example =
    deserialize_block-Fresh digest key_bytes (new_source (block_bytes key_bytes digest chain_block))
      behind chain_block
      (Reads-whole (deserialize_block key_bytes digest)
        (deserialize_block-Reads digest key_bytes chain_block chain_block-IsBlock)
        (omega (arith, chain_block-size)))
