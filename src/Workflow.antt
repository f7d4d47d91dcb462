-- ===== src/Workflow.antt =====
-- The workflow engine: src/modules/workflows.
pub mod Graph
pub mod Validator
pub mod Context
pub mod Execution
pub mod Selection
pub mod Interactive
pub mod Schedule
pub mod Hooks
pub mod Condition
