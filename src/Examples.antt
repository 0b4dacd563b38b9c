-- ===== src/Examples.antt =====
-- Concrete instances of the theorems, on a small workflow with answers for all that it asks.
pub mod Fixtures
mod Statuses
mod Rounds
mod Walks
mod Branches
mod Completion
mod Reconciling
mod Types
mod Backing
mod Graphs
mod Tasks
mod Names
