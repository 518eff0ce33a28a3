-- ===== src/Policy.antt =====
-- src/mcp_zero_trust_layer/policy/: the policy engine.
pub mod Matching
pub mod Conditions
pub mod Select
pub mod Engine
pub mod Adapter
pub mod Analysis
