-- ===== src/Mcp.antt =====
-- The MCP server's own request guards.
pub mod RateLimit
