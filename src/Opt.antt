-- ===== src/Opt.antt =====
-- The passes: src/optimization and include/optimization.
pub mod ConstFolder
pub mod ConstProp
pub mod ActiveVars
pub mod Dominators
