-- ===== src/Tests.antt =====
-- Concrete capabilities, kernels and tables, on which the theorems are applied.
pub mod Toy
pub mod Scheduling
pub mod Calls
pub mod Life
pub mod Runs
pub mod Rpc
pub mod Clients
pub mod Directory
pub mod Mappings
pub mod Block
pub mod Serial
pub mod Modules
pub mod Memory
pub mod Services
pub mod Messages
pub mod Loader
pub mod Launch
pub mod Driver
pub mod Disks
