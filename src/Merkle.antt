-- ===== src/Merkle.antt =====
-- node/merkle: the compact Merkle tree over the block and state roots, its hasher and its verifier.
pub mod Util
pub mod Hasher
pub mod Tree
pub mod Forest
pub mod Bits
pub mod HashFull
pub mod Append
pub mod Root
pub mod Verify
pub mod Proof
pub mod Marshal
pub mod Consistency
pub mod StoredProof
