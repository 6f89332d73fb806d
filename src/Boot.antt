-- ===== src/Boot.antt =====
-- Start-up code: boot/src.
pub mod Modules
pub mod Launch
pub mod Glue
pub mod Alloc
pub mod Elf
