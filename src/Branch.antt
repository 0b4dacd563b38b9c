-- ===== src/Branch.antt =====
-- pkg/controller/nodes/branch: conditions, and the choice of a branch.
pub mod Comparator
pub mod Evaluator
pub mod Decide
pub mod Handler
