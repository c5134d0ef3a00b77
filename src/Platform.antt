-- ===== src/Platform.antt =====
-- service.py (src/control_plane/service.py): the control plane as its callers see it: the workflow
-- task service, the pull request service and the deployment service on one database.
pub mod Terms
pub mod Service
pub mod History
pub mod Entries
pub mod Approvals
