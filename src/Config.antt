-- ===== src/Config.antt =====
-- src/mcp_zero_trust_layer/config/models.py: the configuration. A `Literal` that the code only
-- compares stays a text. The fields of the type float (the timeouts) are left out: no code here
-- computes with them.
mod Models
mod Context
pub mod Validation
unfoldable pub use Models.*
unfoldable pub use Context.*
