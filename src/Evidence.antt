-- ===== src/Evidence.antt =====
-- The evidence protocol: evidence/canonical.py and evidence/store.py.
pub mod Canonical
pub mod Tables
pub mod Store
