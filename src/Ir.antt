-- ===== src/Ir.antt =====
-- The light IR: src/lightir and include/lightir.
pub mod Instruction
pub mod Heap
pub mod Types
pub mod Blocks
pub mod Create
