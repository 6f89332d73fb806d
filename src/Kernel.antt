-- ===== src/Kernel.antt =====
-- The microkernel: kernel/src and kernel/include.
pub mod State
pub mod Ready
pub mod Msg
pub mod Sched
pub mod Inv
pub mod Env
pub mod Act
pub mod Ccall
pub mod Interrupts
pub mod Syscalls
pub mod Exceptions
pub mod Init
