-- ===== src/Tasks.antt =====
-- workflow_tasks.py (src/control_plane/workflow_tasks.py): `WorkflowTaskService`.
pub mod Store
pub mod Steps
pub mod Leasing
pub mod Execution
pub mod Preparation
pub mod Human
pub mod Approvals
pub mod Intake
pub mod Frames
pub mod Service
pub mod History
pub mod Consent
pub mod Reading
pub mod Leases
