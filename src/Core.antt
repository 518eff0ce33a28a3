-- ===== src/Core.antt =====
-- src/mcp_zero_trust_layer/core/pipeline.py: the way of a message through the gateway, for
-- configurations whose servers have the evidence mode "off". Then the dictionary `self.evidence`
-- is empty, and the branches for it are not taken.
pub mod Action
pub mod Messages
pub mod Responses
pub mod Dispatch
pub mod Enforcement
pub mod Approval
pub mod Handlers
pub mod Safety
