-- ===== src/Plan/Layers.antt =====
-- What `Layers` and `Validate` of plan/plan.go guarantee.
mod Counts
mod Degrees
pub mod Tracking
pub mod Round
pub mod Sound
pub mod Complete
