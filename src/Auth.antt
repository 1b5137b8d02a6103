-- ===== src/Auth.antt =====
-- auth/: who may call what. Scopes reads the scopes of a token, Tiers grants the tools of the MCP
-- server, Request authenticates a request.
pub mod Scopes
pub mod Tiers
pub mod Request
mod Tests
