-- ===== src/Vm.antt =====
-- node/vm/neovm: the virtual machine of the contracts; its value stack.
pub mod ValueStack
pub mod IntValue
