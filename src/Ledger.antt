-- ===== src/Ledger.antt =====
-- node/core/types and node/core/payload: transactions, headers and blocks as bytes.
pub mod Fields
pub mod Payload
pub mod Transaction
pub mod Header
pub mod MerkleRoot
pub mod Block
pub mod Program
