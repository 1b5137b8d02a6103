-- ===== src/Artifacts.antt =====
-- The artifact lifecycle (src/homepilot/artifacts): the model's statuses and transitions, the body
-- hash, the store, and the operations of the transition manager.
pub mod Model
pub mod Body
pub mod Spec
pub mod World
pub mod Cascade
pub mod Transitions
pub mod Invalidate
pub mod Machine
pub mod Codes
pub mod Lifecycle
pub mod Id
pub mod Proposal
pub mod Propose
mod Tests
