-- ===== src/Libuser/Interrupt/Owned.antt =====
-- Who owns an interrupt, as programs see it: libuser/src/interrupt.c over the kernel's exception
-- handler.
use cherios.Base.{
  ℕ, ◌-◌, ◌<◌, ◌≡◌, ◌≢◌, refl, sym, ap, subst, ◌∙◌, ok_injective, Bool-cases, inl, inr, update,
  update_self, ok, arith, ◌==◌, if◌then◌else◌, two_32,
}
use cherios.Cheri.{Cheri}
use cherios.Kernel.State.{Kernel, Frame, current, set_current}
use cherios.Kernel.Env.{Layout}
use cherios.Kernel.Act.{kernel_skip_instr}
use cherios.Kernel.Msg.{minus_one}
use cherios.Kernel.Interrupts.{int_children}
use cherios.Kernel.Syscalls.{UserMemory}
use cherios.Kernel.Exceptions.{Hardware, kernel_exception}
use cherios.Kernel.Interrupts.Standing.{Owns, whole, kept-eq-ok}
use cherios.Kernel.Exceptions.Owners.{kernel_exception-Keeps}
use cherios.Libuser.Interrupt.{syscall_with, interrupt_register, interrupt_enable}
use cherios.Libuser.Interrupt.Answers.{
  IsUser, IsSyscall, IsAnswered, left, left-IsAnswered, registers, registers_taken, enables,
  enables_not,
}

module _ (c : Cheri) (l : Layout) (u : UserMemory c) where
  open c use {Cap}

  left-Owns :
      (k : Kernel Cap) (number : ℕ)
      → Owns number k.curr_act (
          left c l u k
            (syscall_with (current k) 50 number)
            0
            (update k.int_child number k.curr_act)
            k.im)
  unfolding kernel_skip_instr
  left-Owns k number = update_self k.int_child number k.curr_act

  -- What the kernel gets to from `k`: programs change their registers, and exceptions enter it.
  pub data Later (k : Kernel Cap) : Kernel Cap → Type 0 where
    now : Later k k
    runs : (k1 : Kernel Cap) (f : Frame Cap) → Later k k1 → Later k (set_current k1 f)
    exception :
        (hw : Hardware) (k1 k2 : Kernel Cap)
        → Later k k1
        → kernel_exception c l u k1 hw ≡ ok k2
        → Later k k2

  Later-Owns : (n a : ℕ) (k k2 : Kernel Cap) → a ≢ 0 → Owns n a k → Later k k2 → Owns n a k2
  Later-Owns n a k k2 live v now = v
  Later-Owns n a k k2 live v (runs k1 f later) = Later-Owns n a k k1 live v later
  Later-Owns n a k k2 live v (exception hw k1 k3 later e) =
      kept-eq-ok whole e
        (kernel_exception-Keeps c n a live l u k1 hw (Later-Owns n a k k1 live v later))

  -- A program whose activation owns the interrupt, or another one.
  later_calls :
      (k2 : Kernel Cap) (hw2 : Hardware) (number owner : ℕ)
      → IsUser k2
      → IsSyscall hw2
      → number < int_children
      → owner ≢ 0
      → Owns number owner k2
      → IsAnswered c l u k2 hw2 (interrupt_register (current k2) number) (two_32 - 1) k2.int_child
        × IsAnswered c l u k2 hw2
            (interrupt_enable (current k2) number)
            (if k2.curr_act == owner then 0 else (two_32 - 1))
            k2.int_child
  unfolding interrupt_register interrupt_enable
  later_calls k2 hw2 number owner user2 call2 low live owns = (
    left-IsAnswered c l u k2 hw2 _ _ minus_one _ k2.im user2 refl (λ g. refl)
        (registers_taken c l u k2 hw2 number user2 call2 low (ground arith)),
    elim (Bool-cases (k2.curr_act == owner)) [
      | inl me ↦ rw me (
          left-IsAnswered c l u k2 hw2 _ _ 0 _ _ user2 refl (λ g. refl)
            (enables c l u k2 hw2 number user2 call2 low (ground arith)))
      | inr other ↦ rw other (
          left-IsAnswered c l u k2 hw2 _ _ minus_one _ k2.im user2 refl (λ g. refl)
            (enables_not c l u k2 hw2 number user2 call2 low (ground arith)))
    ],
  )

  -- An interrupt has one owner for good: when no activation owns it, a program's
  -- `interrupt_register` gives 0 and makes the program's activation the owner; and from then on,
  -- whatever enters the kernel, any program's `interrupt_register` gives -1, and a program's
  -- `interrupt_enable` gives 0 in that activation and -1 in any other. The programs enter the kernel
  -- by system calls, and the interrupt's number is below 7.
  pub interrupt_register-owned :
      (k k1 k2 : Kernel Cap) (hw hw2 : Hardware) (f0 : Frame Cap) (number : ℕ)
      → IsUser k
      → IsUser k2
      → IsSyscall hw
      → IsSyscall hw2
      → number < int_children
      → k.curr_act ≢ 0
      → k.int_child number ≡ 0
      → (interrupt_register (current k) number).enters ≡ ok f0
      → kernel_exception c l u (set_current k f0) hw ≡ ok k1
      → Later k1 k2
      → IsAnswered c l u k hw
          (interrupt_register (current k) number)
          0
          (update k.int_child number k.curr_act)
        × IsAnswered c l u k2 hw2 (interrupt_register (current k2) number) (two_32 - 1) k2.int_child
        × IsAnswered c l u k2 hw2
            (interrupt_enable (current k2) number)
            (if k2.curr_act == k.curr_act then 0 else (two_32 - 1))
            k2.int_child
  unfolding interrupt_register
  interrupt_register-owned k k1 k2 hw hw2 f0 number user user2 call call2 low live free enters went
        later =
      let done = registers c l u k hw number user call low free in
      let same : left c l u k (syscall_with (current k) 50 number) 0
            (update k.int_child number k.curr_act) k.im
          ≡ k1 =
        ok_injective (
          sym done
          ∙ ap (λ f. kernel_exception c l u (set_current k f) hw) (ok_injective enters)
          ∙ went) in
      let first : Owns number k.curr_act k1 =
        subst (Owns number k.curr_act) same (left-Owns k number) in
      let owns = Later-Owns number k.curr_act k1 k2 live first later in
      let (taken, enabled) = later_calls k2 hw2 number k.curr_act user2 call2 low live owns in
      (left-IsAnswered c l u k hw _ _ 0 _ k.im user refl (λ g. refl) done, taken, enabled)
