-- ===== src/Ledger/Block/RoundTrip.antt =====
-- A block is read back.
use layer.Base.{
  ℕ, ◌%◌, ◌<◌, ◌≤◌, ◌≡◌, refl, true, false, List, [], ◌∷◌, All, length, bytes_equal,
  bytes_equal_refl, ok, arith,
}
use layer.Merkle.Util.{u32_mod}
use layer.Common.Bytes.{uint32_bytes}
use layer.Common.Source.Reading.{InMemory}
use layer.Common.Source.Codec.{Reads, Reads-then, Reads-end, Reads-nothing, Reads-whole}
use layer.Ledger.Fields.{word_last}
use layer.Ledger.Fields.Reads.{word_last-Reads}
use layer.Ledger.MerkleRoot.{compute_merkle_root}
use layer.Ledger.Transaction.{
  max_tx_size, tx_max_sig_size, RawSig, Unsigned, Transaction, transaction_bytes,
  deserialize_transaction,
}
use layer.Ledger.Transaction.RoundTrip.{IsUnsigned, signed, deserialize_transaction-Reads}
use layer.Ledger.Header.{PublicKeys, deserialize_header}
use layer.Ledger.Header.RoundTrip.{IsHeader, deserialize_header-Reads}
use layer.Ledger.Block.{
  Block, masked, transaction_hashes, raws, block_bytes, read_transactions, deserialize_block,
  block_from_raw_bytes,
}

-- No hash comes twice, nor is one of `mask`.
unfoldable pub Fresh : List (List ℕ) → List Transaction → Type 0
Fresh mask [] = Unit {0}
Fresh mask (tx ∷ txs) = (masked mask tx.hash ≡ false) × Fresh (tx.hash ∷ mask) txs

module _ (sha256 : List ℕ → List ℕ) where
  -- A transaction as reading makes it.
  pub data IsTransaction : Transaction → Type 0 where
    is_signed :
        {tx : Unsigned} {sigs : List RawSig}
        → IsUnsigned tx
        → length sigs ≤ tx_max_sig_size
        → length (transaction_bytes tx sigs) ≤ max_tx_size
        → IsTransaction (signed sha256 tx sigs)

  transaction-Reads :
      (tx : Transaction) → IsTransaction tx → Reads (deserialize_transaction sha256) tx.raw tx
  transaction-Reads tx (is_signed {tx = u} {sigs = sigs} is few small) =
      deserialize_transaction-Reads sha256 u sigs is few small

  module _ {K : Type 0} (keys : PublicKeys K) where
    read_transactions-Reads :
        (mask : List (List ℕ)) (txs : List Transaction)
        → All IsTransaction txs
        → Fresh mask txs
        → Reads (read_transactions keys sha256 (length txs) mask) (raws txs) txs
    unfolding read_transactions raws Fresh
    read_transactions-Reads mask [] all fresh = Reads-nothing []
    read_transactions-Reads mask (tx ∷ txs) (is, all) (new, fresh) =
        Reads-then (deserialize_transaction sha256) _ (transaction-Reads tx is) (
          rw new (
            Reads-end (read_transactions keys sha256 (length txs) (tx.hash ∷ mask)) _
              (read_transactions-Reads (tx.hash ∷ mask) txs all fresh) (λ s. refl)))

    pub record IsBlock (b : Block K) : Type 0 where
      pub header : IsHeader keys b.header
      pub count : length b.transactions < u32_mod
      pub transactions : All IsTransaction b.transactions
      pub fresh : Fresh [] b.transactions
      pub root :
          b.header.unsigned.transactions_root
          ≡ compute_merkle_root sha256 (transaction_hashes b.transactions)

    pub deserialize_block-Reads :
        (b : Block K)
        → IsBlock b
        → Reads (deserialize_block keys sha256) (block_bytes keys sha256 b) b
    unfolding deserialize_block block_bytes uint32_bytes
    deserialize_block-Reads b is =
        let txs = b.transactions in
        let many = is.count in
        let whole : length txs % u32_mod ≡ length txs = omega arith in
        let root = compute_merkle_root sha256 (transaction_hashes txs) in
        let right : bytes_equal b.header.unsigned.transactions_root root ≡ true =
          rw is.root (bytes_equal_refl root) in
        Reads-then (deserialize_header keys) _ (deserialize_header-Reads keys b.header is.header) (
          rw whole (
            Reads-then (word_last 4) _ (word_last-Reads 4 (length txs) (omega arith)) (
              Reads-end (read_transactions keys sha256 (length txs) []) _
                (read_transactions-Reads [] txs is.transactions is.fresh) (λ s. rw right))))

    -- Let the fields of a block's header fit their types, let its transactions, fewer than 2 ^
    -- 32, be such as reading makes them, with hashes that differ, let the header's root be the
    -- Merkle root of these hashes, and let the bytes of the block be fewer than 2 ^ 63. Then
    -- `BlockFromRawBytes` reads the block back from what `Serialization` writes.
    pub block_from_raw_bytes-block_bytes :
        (b : Block K)
        → IsBlock b
        → InMemory (block_bytes keys sha256 b)
        → block_from_raw_bytes keys sha256 (block_bytes keys sha256 b) ≡ ok b
    unfolding block_from_raw_bytes
    block_from_raw_bytes-block_bytes b is m =
        rw (Reads-whole (deserialize_block keys sha256) (deserialize_block-Reads b is) m)
