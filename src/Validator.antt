-- ===== src/Validator.antt =====
-- node/validator: checks of transactions in front of the pool.
pub mod Increment
