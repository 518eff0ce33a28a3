-- ===== src/Tests.antt =====
-- The theorems at concrete inputs, and runs of the code.
pub mod PolicyTests
pub mod ConfigTests
pub mod ApprovalTests
pub mod CoreTests
pub mod MessageTests
pub mod SessionTests
pub mod AuditTests
pub mod ValidatorTests
pub mod IdentityTests
pub mod EvidenceTests
pub mod AnalysisTests
pub mod MetricsTests
