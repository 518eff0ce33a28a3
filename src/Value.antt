-- ===== src/Value.antt =====
-- Python values: the data, comparison, and what the program's calls may raise.
mod Defs
mod Compare
mod Errors
use mcp_zero_trust_layer.Base.{nat_eq, string_eq, option_eq, int_eq}
unfoldable pub use Defs.*
unfoldable pub use Compare.{py_eq, eq_items, eq_fields, mem_items, py_lt, lt_items}
unfoldable pub use Errors.*
