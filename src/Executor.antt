-- ===== src/Executor.antt =====
-- executor/: how an approved artifact is applied, replayed and revoked, and a composite step by step.
pub mod Reversal
pub mod Order
pub mod Composite
pub mod Orchestrate
pub mod Reconcile
mod Tests
