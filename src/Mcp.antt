-- ===== src/Mcp.antt =====
-- Reactive events over MCP: src/mcp/reactive-events.ts and src/mcp/http-session-manager.ts.
pub mod Topics
pub mod Matching
pub mod Session
mod Permitted
mod Guards
mod Delivery
mod Tests
