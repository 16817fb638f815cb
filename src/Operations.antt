-- ===== src/Operations.antt =====
-- pkg/operations: draining a node and deleting a virtual machine with what belongs to it.
pub mod Drain
pub mod DeleteVm
pub mod Counts
pub mod Cordon
pub mod Draining
