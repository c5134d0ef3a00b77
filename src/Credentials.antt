-- ===== src/Credentials.antt =====
-- credentials.py (src/control_plane/credentials.py): the brokers of workload credentials.
pub mod Types
pub mod Fake
pub mod Kubernetes
pub mod Limits
pub mod Containment
