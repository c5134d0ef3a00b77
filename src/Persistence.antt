-- ===== src/Persistence.antt =====
-- persistence.py (src/control_plane/persistence.py): the rows that the workflow task service,
-- the policy and the audit log read and write, and the database that holds them.
--
-- A row's primary key (`new_id`, a UUID) is its position in its table, so a key that is drawn is
-- new; a principal's key is its text. `created_at` is written where the code orders by it.
pub mod Json
mod Table
mod Releases
mod Rows
unfoldable pub use Table.*
unfoldable pub use Releases.*
unfoldable pub use Rows.*
