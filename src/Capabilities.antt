-- ===== src/Capabilities.antt =====
-- src/mcp_zero_trust_layer/capabilities/: which capabilities a client may see.
pub mod Filtering
