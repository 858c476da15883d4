-- ===== src/Workflow.antt =====
-- The workflow tasks of app/workflow.
pub mod Lock
pub mod TickBudget
