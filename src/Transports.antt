-- ===== src/Transports.antt =====
-- src/mcp_zero_trust_layer/transports/: the state that the HTTP transport keeps.
pub mod Sessions
