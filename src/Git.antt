-- ===== src/Git.antt =====
-- git_pull_requests.py (src/control_plane/git_pull_requests.py): `GitPullRequestService`.
pub mod Store
pub mod Checks
pub mod Proposals
pub mod Readiness
pub mod Merges
pub mod Frames
pub mod Consent
