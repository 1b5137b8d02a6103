-- ===== src/Mcp.antt =====
-- The MCP transport (src/homepilot/mcp): the approval tool, which takes a code that a human relays.
pub mod Approve
mod Tests
