-- ===== src/Compiler.antt =====
-- pkg/compiler: what the compiler checks of a workflow before it is run.
pub mod Types
pub mod Casting
pub mod Cycles
pub mod Edges
pub mod Reachable
