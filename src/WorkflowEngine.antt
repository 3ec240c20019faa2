-- ===== src/WorkflowEngine.antt =====
-- The Workflow Engine (kernel/src/ai_os_kernel/workflow_engine).
pub mod Definition
pub mod Instance
pub mod Repository
pub mod Lease
pub mod Service
pub mod Approvals
pub mod Runner
