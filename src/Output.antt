-- ===== src/Output.antt =====
-- src/mcp_zero_trust_layer/output/: what is done to the responses of an upstream server.
pub mod Enforcer
