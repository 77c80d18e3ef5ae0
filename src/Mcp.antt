-- ===== src/Mcp.antt =====
-- packages/mcp: the tools of connected servers.
pub mod Registry
pub mod Toolset
