-- ===== src/Mcp.antt =====
-- The MCP server of src/mcp: JSON-RPC requests, one a line, on the standard input.
pub mod Protocol
pub mod Server
