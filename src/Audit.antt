-- ===== src/Audit.antt =====
-- src/mcp_zero_trust_layer/audit/: what is written about decisions, and how it is read back.
pub mod Redaction
pub mod Logger
pub mod Search
