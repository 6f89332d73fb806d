-- ===== src/Kernel/Exceptions.antt =====
-- kernel/src/kernel_exceptions.c: the exception handler, which every entry to the kernel goes
-- through. What the coprocessor registers show is a parameter; the dumps only print.
pub mod Safe
pub mod Reach
pub mod Owners
use cherios.Base.{
  ℕ, ◌+◌, ◌-◌, ◌/◌, ◌%◌, ◌^◌, Bool, List, Res, ok, halt, panic, assert, ◌>>=◌, ◌>>◌, ◌==◌,
  if◌then◌else◌,
}
use cherios.Cheri.{Cheri}
use cherios.Kernel.State.{Kernel}
use cherios.Kernel.Env.{Layout}
use cherios.Kernel.Ccall.{kernel_ccall, kernel_creturn}
use cherios.Kernel.Interrupts.{kernel_interrupt}
use cherios.Kernel.Syscalls.{UserMemory, kernel_exception_syscall}

-- `exl` is the status register's bit, `excode` and `ipending` are fields of the cause register,
-- `capcause` is the capability cause register.
pub record Hardware : Type 0 where
  pub exl : Bool
  pub excode : ℕ
  pub ipending : ℕ
  pub capcause : ℕ
  pub counts : List ℕ

module _ (c : Cheri) (l : Layout) (u : UserMemory c) where
  open c use {Cap}

  unfoldable pub kernel_exception_capability : Kernel Cap → ℕ → Res (Kernel Cap)
  kernel_exception_capability k capcause =
      let cause = capcause / 2 ^ 8 % 2 ^ 5 in
      if cause == 5
      then kernel_ccall c l k
      else (if cause == 6 then kernel_creturn c k else halt panic)

  -- The data and the unknown exceptions both dump and freeze.
  unfoldable pub handle : Kernel Cap → Hardware → Res (Kernel Cap)
  unfolding kernel_exception_capability
  handle k hw =
      if hw.excode == 0
      then kernel_interrupt c.null k hw.ipending hw.counts
      else (if hw.excode == 8
          then kernel_exception_syscall c l u k
          else (if hw.excode == 18 then kernel_exception_capability k hw.capcause else halt panic))

  unfoldable pub kernel_exception : Kernel Cap → Hardware → Res (Kernel Cap)
  unfolding handle
  kernel_exception k hw = do
    let k1 = record k { entered = k.entered + 1 }
    assert hw.exl
    k2 ← handle k1 hw
    let k3 = record k2 { entered = k2.entered - 1 }
    if k3.entered == 0 then ok k3 else halt panic
