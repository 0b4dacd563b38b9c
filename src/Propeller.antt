-- ===== src/Propeller.antt =====
-- pkg/controller: the reconciliation of one `FlyteWorkflow` resource, from its look-up in the
-- store to the update that is written back.
pub mod Resource
pub mod Store
pub mod Handler
pub mod Release
pub mod Streaks
pub mod Strikes
pub mod Caching
