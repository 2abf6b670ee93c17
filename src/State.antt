-- ===== src/State.antt =====
-- node/core/store/overlaydb and node/smartcontract/storage: the write caches above the store.
pub mod Keys
pub mod Backing
pub mod Overlay
pub mod Cache
pub mod Iterator
