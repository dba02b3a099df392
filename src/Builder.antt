-- ===== src/Builder.antt =====
-- include/cminusf_builder.hpp: the parts of the code generator.
pub mod Scope
pub mod Gen
