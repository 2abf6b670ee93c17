-- ===== src/Ledger/Block.antt =====
-- node/core/types/block.go: a block is its header and its transactions.
pub mod RoundTrip
pub mod Accepted
use layer.Base.{
  ℕ, zero, suc, ◌%◌, Bool, true, false, not, ◌||◌, List, [], ◌∷◌, ◌++◌, map, length, bytes_equal,
  Outcome, ok, err, ◌>>=◌, ◌>>◌, fail_if,
}
use layer.Merkle.Util.{u32_mod}
use layer.Common.Bytes.{uint32_bytes}
use layer.Common.Source.{ZeroCopySource, new_source}
use layer.Ledger.Fields.{Error, word_last, duplicated_transaction, mismatched_root}
use layer.Ledger.MerkleRoot.{compute_merkle_root}
use layer.Ledger.Transaction.{Transaction, deserialize_transaction}
use layer.Ledger.Header.{PublicKeys, Header, header_bytes, deserialize_header}

pub record Block (K : Type 0) : Type 0 where
  pub header : Header K
  pub transactions : List Transaction

-- `mask[txhash]`
unfoldable pub masked : List (List ℕ) → List ℕ → Bool
masked [] hash = false
masked (seen ∷ mask) hash = bytes_equal seen hash || masked mask hash

unfoldable pub transaction_hashes : List Transaction → List (List ℕ)
transaction_hashes [] = []
transaction_hashes (tx ∷ txs) = tx.hash ∷ transaction_hashes txs

unfoldable pub raws : List Transaction → List ℕ
raws [] = []
raws (tx ∷ txs) = tx.raw ++ raws txs

module _ {K : Type 0} (keys : PublicKeys K) (sha256 : List ℕ → List ℕ) where
  -- `Serialization`, of transactions that were read.
  unfoldable pub block_bytes : Block K → List ℕ
  block_bytes b =
      header_bytes keys b.header
      ++ (uint32_bytes (length b.transactions % u32_mod) ++ raws b.transactions)

  -- The loop over the transactions, with the hashes that were met.
  unfoldable pub read_transactions :
      ℕ → List (List ℕ) → ZeroCopySource → Outcome Error (List Transaction × ZeroCopySource)
  read_transactions zero mask source = ok ([], source)
  read_transactions (suc n) mask source = do
    tx ← deserialize_transaction sha256 source
    fail_if (masked mask tx.0.hash) duplicated_transaction
        >> (do txs ← read_transactions n (tx.0.hash ∷ mask) tx.1; ok (tx.0 ∷ txs.0, txs.1))

  unfoldable pub deserialize_block : ZeroCopySource → Outcome Error (Block K × ZeroCopySource)
  deserialize_block source = do
    header ← deserialize_header keys source
    count ← word_last 4 header.1
    txs ← read_transactions count.0 [] count.1
    fail_if
          (not (
            bytes_equal header.0.unsigned.transactions_root
              (compute_merkle_root sha256 (transaction_hashes txs.0))))
          mismatched_root
        >> ok (record { header = header.0; transactions = txs.0 }, txs.1)

  unfoldable pub block_from_raw_bytes : List ℕ → Outcome Error (Block K)
  block_from_raw_bytes raw = do r ← deserialize_block (new_source raw); ok r.0

  -- `RebuildMerkleRoot`
  unfoldable pub rebuild_merkle_root : Block K → Block K
  rebuild_merkle_root b = record b {
    header = record b.header {
      unsigned = record b.header.unsigned {
        transactions_root = compute_merkle_root sha256 (transaction_hashes b.transactions);
      };
    };
  }
