-- ===== src/Approvals.antt =====
-- src/mcp_zero_trust_layer/approvals/: requests for a human decision, and their store.
pub mod Model
pub mod Evolution
pub mod FileStore
pub mod SqliteStore
pub mod Store
