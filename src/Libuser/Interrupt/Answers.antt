-- ===== src/Libuser/Interrupt/Answers.antt =====
-- What a program's system call for an interrupt leaves and gives.
use cherios.Base.{ℕ, ◌%◌, ◌<◌, ◌≡◌, ◌≢◌, refl, ◌∙◌, true, update, update_self, ok, arith, two_32}
use cherios.Cheri.{Cheri}
use cherios.Kernel.State.{Kernel, Frame, current, set_current}
use cherios.Kernel.Env.{Layout}
use cherios.Kernel.Act.{kernel_skip_instr}
use cherios.Kernel.Msg.{minus_one}
use cherios.Kernel.Interrupts.{
  set_bit, int_children, kernel_interrupt_register, kernel_interrupt_enable,
}
use cherios.Kernel.Syscalls.{UserMemory, dispatch, syscall_of, kernel_exception_syscall}
use cherios.Kernel.Exceptions.{Hardware, handle, kernel_exception}
use cherios.Libuser.{Stub}
use cherios.Libuser.Interrupt.{syscall_with}
use cherios.Libuser.Server.{as_int}

-- A program runs outside of the kernel, and the kernel keeps its registers.
pub record IsUser {Cap : Type 0} (k : Kernel Cap) : Type 0 where
  pub framed : k.framep ≡ k.curr_act
  pub outside : k.entered ≡ 0

-- A system call, as the hardware shows it.
pub record IsSyscall (hw : Hardware) : Type 0 where
  pub exl : hw.exl ≡ true
  pub excode : hw.excode ≡ 8

module _ (c : Cheri) (l : Layout) (u : UserMemory c) where
  open c use {Cap}

  -- A program's system call ends in the program again, with this number and these owners.
  pub record IsAnswered (k : Kernel Cap) (hw : Hardware) (call : Stub Cap ℕ) (ret : ℕ)
      (owners : ℕ → ℕ) : Type 0 where
    pub f0 : Frame Cap
    pub k3 : Kernel Cap
    pub enters : call.enters ≡ ok f0
    pub ends : kernel_exception c l u (set_current k f0) hw ≡ ok k3
    pub back : k3.curr_act ≡ k.curr_act
    pub user : IsUser k3
    pub answer : call.returns (current k3) ≡ ret
    pub owned : k3.int_child ≡ owners

  -- In the kernel, with the registers of the call
  abbrev pub inside : Kernel Cap → Frame Cap → Kernel Cap
  inside k f0 = record (set_current k f0) { entered = 1 }

  syscall-ends :
      (k : Kernel Cap) (hw : Hardware) (f0 : Frame Cap) (kr : Kernel Cap)
      → IsUser k
      → IsSyscall hw
      → dispatch c l u (inside k f0) (syscall_of f0.v0) ≡ ok kr
      → kr.entered ≡ 1
      → kernel_exception c l u (set_current k f0) hw
        ≡ ok (record (kernel_skip_instr c kr k.curr_act) { entered = 0 })
  unfolding kernel_exception handle kernel_exception_syscall kernel_skip_instr
  syscall-ends k hw f0 kr user call done nested =
      rw (call.exl, user.outside, call.excode, update_self k.frames k.framep f0, done, nested) refl

  -- What the call leaves: a number in `v0`, the owners and the interrupt mask.
  abbrev pub left : Kernel Cap → Frame Cap → ℕ → (ℕ → ℕ) → ℕ → Kernel Cap
  left k f0 ret owners mask =
      let k1 = record (inside k f0) { int_child = owners; im = mask } in
      let k2 = set_current k1 (record (current k1) { v0 = ret }) in
      record (kernel_skip_instr c k2 k.curr_act) { entered = 0 }

  pub left-IsAnswered :
      (k : Kernel Cap) (hw : Hardware) (call : Stub Cap ℕ) (f0 : Frame Cap) (ret : ℕ)
      (owners : ℕ → ℕ) (mask : ℕ)
      → IsUser k
      → call.enters ≡ ok f0
      → ((g : Frame Cap) → call.returns g ≡ as_int g.v0)
      → kernel_exception c l u (set_current k f0) hw ≡ ok (left k f0 ret owners mask)
      → IsAnswered k hw call (as_int ret) owners
  unfolding kernel_skip_instr
  left-IsAnswered k hw call f0 ret owners mask user enters reads e = record {
    f0 = f0;
    k3 = left k f0 ret owners mask;
    enters = enters;
    ends = e;
    back = refl;
    user = record { framed = user.framed; outside = refl };
    answer = reads (current (left k f0 ret owners mask)) ∙ rw user.framed (ground arith);
    owned = refl;
  }

  -- The number as the kernel reads it
  abbrev given : Kernel Cap → ℕ → ℕ → ℕ
  given k sysn number =
      let ke = inside k (syscall_with (current k) sysn number) in (current ke).a0 % two_32

  given-eq :
      (k : Kernel Cap) (sysn number : ℕ) → number < int_children → given k sysn number ≡ number
  given-eq k sysn number low =
      rw (update_self k.frames k.framep (syscall_with (current k) sysn number)) (ground arith)

  pub registers :
      (k : Kernel Cap) (hw : Hardware) (number : ℕ)
      → IsUser k
      → IsSyscall hw
      → number < int_children
      → k.int_child number ≡ 0
      → let f0 = syscall_with (current k) 50 number in
        kernel_exception c l u (set_current k f0) hw
        ≡ ok (left k f0 0 (update k.int_child number k.curr_act) k.im)
  unfolding dispatch syscall_of kernel_interrupt_register
  registers k hw number user call low free =
      syscall-ends k hw (syscall_with (current k) 50 number) _ user call
        (rw (given-eq k 50 number low) (ground arith)) refl

  pub registers_taken :
      (k : Kernel Cap) (hw : Hardware) (number : ℕ)
      → IsUser k
      → IsSyscall hw
      → number < int_children
      → k.int_child number ≢ 0
      → let f0 = syscall_with (current k) 50 number in
        kernel_exception c l u (set_current k f0) hw ≡ ok (left k f0 minus_one k.int_child k.im)
  unfolding dispatch syscall_of kernel_interrupt_register
  registers_taken k hw number user call low taken =
      syscall-ends k hw (syscall_with (current k) 50 number) _ user call
        (rw (given-eq k 50 number low) (ground arith)) refl

  pub enables :
      (k : Kernel Cap) (hw : Hardware) (number : ℕ)
      → IsUser k
      → IsSyscall hw
      → number < int_children
      → k.int_child number ≡ k.curr_act
      → let f0 = syscall_with (current k) 51 number in
        kernel_exception c l u (set_current k f0) hw
        ≡ ok (left k f0 0 k.int_child (set_bit k.im number))
  unfolding dispatch syscall_of kernel_interrupt_enable
  enables k hw number user call low owner =
      syscall-ends k hw (syscall_with (current k) 51 number) _ user call
        (rw (given-eq k 51 number low) (ground arith)) refl

  pub enables_not :
      (k : Kernel Cap) (hw : Hardware) (number : ℕ)
      → IsUser k
      → IsSyscall hw
      → number < int_children
      → k.int_child number ≢ k.curr_act
      → let f0 = syscall_with (current k) 51 number in
        kernel_exception c l u (set_current k f0) hw ≡ ok (left k f0 minus_one k.int_child k.im)
  unfolding dispatch syscall_of kernel_interrupt_enable
  enables_not k hw number user call low other =
      syscall-ends k hw (syscall_with (current k) 51 number) _ user call
        (rw (given-eq k 51 number low) (ground arith)) refl
