-- ===== src/Domain.antt =====
-- domain.py (src/control_plane/domain.py).
mod Types
mod Roles
mod Values
pub mod Duties
unfoldable pub use Types.*
unfoldable pub use Roles.*
unfoldable pub use Values.*
