-- ===== src/Mcp.antt =====
-- pkg/mcp/server.go: the MCP server, over the store, the vault and the gateway's client.
pub mod Types
pub mod Scopes
pub mod Auth
pub mod Tools
pub mod Admin
pub mod Server
pub mod Transport
pub mod Stdio
pub mod Samples
mod Tests
