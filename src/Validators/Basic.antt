-- ===== src/Validators/Basic.antt =====
-- validators/basic.py: the validators that a policy can name.
pub mod Sql
pub mod Paths
pub mod Url
pub mod Email
pub mod Fields
pub mod ReadOnly
pub mod All
