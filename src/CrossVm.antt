-- ===== src/CrossVm.antt =====
-- node/vm/crossvm_codec: values that pass between virtual machines, as bytes.
pub mod Codec
