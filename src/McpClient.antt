-- ===== src/McpClient.antt =====
-- mcpclient: the tools of MCP servers.
pub mod Names
pub mod Collisions
