-- ===== src/Plan.antt =====
-- Package plan (plan/plan.go, plan/workflow.go): a directed acyclic graph of named activities, its
-- validation and layering, and the workflow that runs it. The definitions stand in the first three
-- children, the proofs in the others.
pub mod Options
pub mod Graph
pub mod Layers
pub mod Validation
pub mod Leaves
pub mod Run
