-- ===== src/Plan/Validation.antt =====
-- What `Validate` of plan/plan.go accepts.
pub mod Loops
pub mod Exact
