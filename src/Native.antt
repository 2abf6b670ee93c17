-- ===== src/Native.antt =====
-- node/smartcontract/service/native: the native contracts and what they store.
pub mod Item
pub mod Store
pub mod Token
pub mod LinkedList
pub mod Args
pub mod Execution
pub mod Ong
pub mod Ont
pub mod Unbind
