-- ===== src/Core/Safety.antt =====
-- core/pipeline.py: the calls of the upstream server.
pub mod Justified
pub mod Rules
pub mod Calls
pub mod Paths
pub mod Handling
