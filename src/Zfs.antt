-- ===== src/Zfs.antt =====
-- internal/zfs: the library's own view of the datasets of the ZFS pools.
pub mod Names
pub mod Dataset
pub mod Hierarchy
pub mod Refresh
pub mod Property
pub mod Destroy
pub mod Create
pub mod Clone
pub mod Dependencies
pub mod InverseOrigin
pub mod Cache
pub mod Transaction
pub mod Samples
mod Tests
