-- ===== src/Memmgt.antt =====
-- The memory manager: memmgt/src.
pub mod Mmap
pub mod Methods
pub mod Client
