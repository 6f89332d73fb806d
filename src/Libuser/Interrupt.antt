-- ===== src/Libuser/Interrupt.antt =====
-- libuser/src/interrupt.c and ssleep.c: a program's system calls for interrupts and to give up the
-- processor. An `int` is its 32-bit pattern.
pub mod Answers
pub mod Owned
use cherios.Base.{ℕ, ok}
use cherios.Kernel.State.{Frame}
use cherios.Libuser.{Stub}
use cherios.Libuser.Server.{sign_extend, as_int}

module _ {Cap : Type 0} where
  -- A system call with one number
  abbrev pub syscall_with : Frame Cap → ℕ → ℕ → Frame Cap
  syscall_with f sysn n = record f { v0 = sysn; a0 = sign_extend n }

  unfoldable pub interrupt_register : Frame Cap → ℕ → Stub Cap ℕ
  interrupt_register f number = record {
    enters = ok (syscall_with f 50 number);
    returns = λ g. as_int g.v0;
  }

  unfoldable pub interrupt_enable : Frame Cap → ℕ → Stub Cap ℕ
  interrupt_enable f number = record {
    enters = ok (syscall_with f 51 number);
    returns = λ g. as_int g.v0;
  }

  unfoldable pub ssleep : Frame Cap → ℕ → Stub Cap (Unit {0})
  ssleep f n = record { enters = ok (syscall_with f 13 n); returns = λ g. tt }
