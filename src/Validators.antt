-- ===== src/Validators.antt =====
-- src/mcp_zero_trust_layer/validators/: what a policy demands of the arguments of a call.
pub mod InputPolicy
pub mod Platform
pub mod Options
pub mod Basic
pub mod Engine
