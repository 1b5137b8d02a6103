-- ===== src/Hub.antt =====
-- agent_hub/: who may register with the hub.
pub mod Agents
pub mod Tokens
pub mod Window
pub mod Auth
pub mod Replay
pub mod Session
pub mod Canon
mod Tests
