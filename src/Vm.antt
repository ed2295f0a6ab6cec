-- ===== src/Vm.antt =====
-- The vm package: what the node checks before it runs code.
pub mod CodeValidator
pub mod Execution
pub mod Regional
