-- ===== src/Common.antt =====
-- node/common: the binary codec that every structure of the node is stored and sent in.
pub mod SafeMath
pub mod Words
pub mod Int128
pub mod Source
pub mod Bytes
pub mod Sink
pub mod BigInt
