-- ===== src/Gc.antt =====
-- internal/machines/gc.go: the garbage collection of states.
pub mod Combinations
pub mod Selection
mod Tests
pub mod Slice
pub mod Buckets
pub mod Walk
pub mod Pass
pub mod UserPass
pub mod Unmanaged
pub mod Loop
pub mod Samples
