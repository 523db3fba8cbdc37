-- ===== src/Mcp.antt =====
-- mcp/: the protocol of Model Context Protocol servers.
pub mod Protocol
pub mod Sse
pub mod Tools
pub mod Prompts
pub mod Calls
pub mod Headers
