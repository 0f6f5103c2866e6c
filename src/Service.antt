-- ===== src/Service.antt =====
-- pkg/service: the business logic.
pub mod Effects
pub mod Prerequisites
pub mod Retry
pub mod Claim
pub mod Sample
pub mod Available
pub mod Selection
pub mod SetGoalActive
pub mod ProgressQuery
pub mod Initialize
pub mod History
