-- ===== src/Deployment.antt =====
-- deployment.py and deployment_recovery.py (src/control_plane): environments, plans, attempts,
-- rollbacks.
pub mod Types
pub mod Adapter
pub mod Store
pub mod Environments
pub mod Plans
pub mod Attempts
pub mod Outcomes
pub mod Rollbacks
pub mod Frames
pub mod Consent
pub mod DryRun
pub mod Finality
