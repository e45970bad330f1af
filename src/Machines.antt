-- ===== src/Machines.antt =====
-- internal/machines: the machines, their states, and the operations on them.
pub mod CreateSnapshot
pub mod Cmdline
pub mod StateName
pub mod Tags
pub mod Unique
pub mod Origin
pub mod Maps
pub mod Populate
pub mod UserTags
pub mod UserStates
pub mod Remove
pub mod Find
pub mod Boot
pub mod UserData
pub mod Model
mod Tests
