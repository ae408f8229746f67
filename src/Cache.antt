-- ===== src/Cache.antt =====
-- The trusted cache: the rows (Rows), the manager's reads and writes (Manager), its invalidations
-- (Invalidate), and what is proved of them.
pub mod Toy
pub mod Rows
pub mod Manager
pub mod Run
pub mod Store
pub mod Invalidate
pub mod Refresh
pub mod Valid
pub mod Dead
pub mod Revoked
pub mod Withdrawn
pub mod Refreshed
pub mod Moves
pub mod Generation
mod Tests
