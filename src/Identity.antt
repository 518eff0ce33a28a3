-- ===== src/Identity.antt =====
-- Who a request comes from: identity/auth.py, and the secrets of config/secrets.py that it compares
-- with.
pub mod Secrets
pub mod Auth
pub mod Resolver
