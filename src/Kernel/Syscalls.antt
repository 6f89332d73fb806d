-- ===== src/Kernel/Syscalls.antt =====
-- kernel/src/syscalls.c: the system calls. `puts` and error messages only print, and leave the
-- state as it is.
pub mod Effects
pub mod Safe
pub mod Dispatch
pub mod Benign
pub mod Standing
use cherios.Base.{ℕ, ◌%◌, Option, Res, ok, halt, panic, ◌>>=◌, ◌==◌, if◌then◌else◌, two_32}
use cherios.Cheri.{Cheri}
use cherios.Kernel.State.{Kernel, Frame, current, set_current}
use cherios.Kernel.Sched.{sched_reschedule}
use cherios.Kernel.Env.{Layout}
use cherios.Kernel.Act.{
  act_register, act_get_ref, act_get_id, act_get_status, act_revoke, act_terminate,
  act_seal_identifier, kernel_skip_instr,
}
use cherios.Kernel.Interrupts.{kernel_interrupt_register, kernel_interrupt_enable}

-- The memory of the calling activation, read through its capabilities.
pub record UserMemory (c : Cheri) : Type 0 where
  pub frame_at : c.Cap → Option (Frame c.Cap)
  pub char_at : c.Cap → ℕ → ℕ

-- The numbers of `switch(sysn)`
pub data Syscall : Type 0 where
  sleep act_register_call get_ref get_id get_status revoke terminate seal_identifier puts : Syscall
  stop interrupt_register interrupt_enable unknown : Syscall

unfoldable pub syscall_of : ℕ → Syscall
syscall_of n =
    if n == 13
    then sleep
    else (if n == 20
        then act_register_call
        else (if n == 21
            then get_ref
            else (if n == 22
                then get_id
                else (if n == 23
                    then get_status
                    else (if n == 25
                        then revoke
                        else (if n == 26
                            then terminate
                            else (if n == 29
                                then seal_identifier
                                else (if n == 34
                                    then puts
                                    else (if n == 42
                                        then stop
                                        else (if n == 50
                                            then interrupt_register
                                            else (if n == 51
                                                then interrupt_enable
                                                else unknown)))))))))))

module _ {Cap : Type 0} where
  -- A result in `mf_v0`, and one in `cf_c3`
  abbrev pub return_v0 : Res (ℕ × Kernel Cap) → Res (Kernel Cap)
  return_v0 m = m >>= λ (ret, k). ok (set_current k (record (current k) { v0 = ret }))

  abbrev pub return_c3 : Res (Cap × Kernel Cap) → Res (Kernel Cap)
  return_c3 m = m >>= λ (ret, k). ok (set_current k (record (current k) { c3 = ret }))

  unfoldable pub syscall_sleep : Kernel Cap → Res (Kernel Cap)
  syscall_sleep k = if (current k).a0 % two_32 == 0 then sched_reschedule k 0 else ok k

  -- A function of a reference that leaves the state alone.
  abbrev pub keeping : {A : Type 0} → Kernel Cap → Res A → Res (A × Kernel Cap)
  keeping k m = m >>= λ a. ok (a, k)

module _ (c : Cheri) (l : Layout) (u : UserMemory c) where
  open c use {Cap}

  unfoldable pub syscall_act_terminate : Kernel Cap → Res (Kernel Cap)
  syscall_act_terminate k = do
    (ret, k1) ← act_terminate c l k (current k).c3
    if ret == 1
        then sched_reschedule k1 0
        else ok (set_current k1 (record (current k1) { v0 = ret }))

  unfoldable pub dispatch : Kernel Cap → Syscall → Res (Kernel Cap)
  unfolding syscall_sleep syscall_act_terminate
  dispatch k sleep = syscall_sleep k
  dispatch k act_register_call =
      let f = current k in
      return_c3
        (act_register c l k (u.frame_at f.c3) (record { cap = f.c4; char = u.char_at f.c4 }))
  dispatch k get_ref = return_c3 (keeping k (act_get_ref c l k (current k).c3))
  dispatch k get_id = return_c3 (keeping k (act_get_id c l k (current k).c3))
  dispatch k get_status = return_v0 (keeping k (act_get_status c l k (current k).c3))
  dispatch k revoke = return_v0 (act_revoke c l k (current k).c3)
  dispatch k terminate = syscall_act_terminate k
  dispatch k seal_identifier = return_c3 (keeping k (act_seal_identifier c k (current k).c3))
  dispatch k puts = ok k
  dispatch k stop = halt panic
  dispatch k interrupt_register = return_v0 (kernel_interrupt_register k ((current k).a0 % two_32))
  dispatch k interrupt_enable = return_v0 (kernel_interrupt_enable k ((current k).a0 % two_32))
  dispatch k unknown = halt panic

  -- The calling activation's instruction is skipped, also if another one runs afterwards.
  unfoldable pub kernel_exception_syscall : Kernel Cap → Res (Kernel Cap)
  unfolding dispatch syscall_of kernel_skip_instr
  kernel_exception_syscall k = do
    let kca = k.curr_act
    k1 ← dispatch k (syscall_of (current k).v0)
    ok (kernel_skip_instr c k1 kca)
