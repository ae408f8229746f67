-- ===== src/Admin.antt =====
-- admin/publisher.py, on the SQLite registry of db/repositories.py and chain/sqlite_backend.py.
pub mod Registry
pub mod Publisher
pub mod Publishes
pub mod Published
mod Tests
