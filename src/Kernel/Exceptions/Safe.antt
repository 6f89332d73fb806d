-- ===== src/Kernel/Exceptions/Safe.antt =====
-- One entry into a running kernel: kernel/src/kernel_exceptions.c as a whole.
use cherios.Base.{
  ℕ, ◌+◌, ◌-◌, ◌/◌, ◌%◌, ◌^◌, ◌≡◌, true, Bool-cases, inl, inr, ok, halt, panic, ◌==◌, if◌then◌else◌,
  arith,
}
use cherios.Cheri.{Cheri, Laws}
use cherios.Kernel.State.{Kernel, current}
use cherios.Kernel.Inv.{
  IsRunning, Contained, Resumes-Contained, agree, Agree-IsSound, bind-Contained,
}
use cherios.Kernel.Env.{Layout, Fits}
use cherios.Kernel.Ccall.{ccall_target}
use cherios.Kernel.Ccall.Call.{Refers, kernel_ccall-Contained}
use cherios.Kernel.Ccall.Answer.{IsFresh, kernel_creturn-Contained}
use cherios.Kernel.Interrupts.Passing.{Settles, kernel_interrupt-Resumes}
use cherios.Kernel.Syscalls.{UserMemory, syscall_of}
use cherios.Kernel.Syscalls.Benign.{Benign, kernel_exception_syscall-Contained}
use cherios.Kernel.Exceptions.{Hardware, kernel_exception_capability, handle, kernel_exception}

module _ (c : Cheri) (laws : Laws c) (l : Layout) (fits : Fits l) (u : UserMemory c) where
  open c use {Cap}

  -- The kernel one level deeper, where the handlers run.
  abbrev pub nested : Kernel Cap → Kernel Cap
  nested k = record k { entered = k.entered + 1 }

  -- What the kernel relies on when it is entered: the hardware has set the exception level, the
  -- timer's loop ends, the arguments of a system call are as they should be, what a CCall calls
  -- stands for a registered activation, and the token of a CReturn has not been used before.
  pub record Allowed (k : Kernel Cap) (hw : Hardware) : Type 0 where
    pub level : hw.exl ≡ true
    pub settles : Settles hw.counts
    pub benign : hw.excode ≡ 8 → Benign c laws l fits u (nested k) (syscall_of (current k).v0)
    pub refers : hw.excode ≡ 18 → Refers c (nested k) (ccall_target c l (nested k))
    pub fresh : hw.excode ≡ 18 → IsFresh c (nested k) (current k).c1

  nested-IsRunning : (k : Kernel Cap) → IsRunning k → IsRunning (nested k)
  nested-IsRunning k v = record {
    sound = Agree-IsSound (agree k) v.sound;
    framed = v.framed;
    runs = v.runs;
  }

  capability-Contained :
      (k : Kernel Cap) (capcause : ℕ)
      → IsRunning k
      → Refers c k (ccall_target c l k)
      → IsFresh c k (current k).c1
      → Contained (kernel_exception_capability c l u k capcause)
  unfolding kernel_exception_capability
  capability-Contained k capcause v refers fresh =
      let cause = capcause / 2 ^ 8 % 2 ^ 5 in
      elim (Bool-cases (cause == 5)) [
        | inl call ↦ rw call (kernel_ccall-Contained c l k v refers)
        | inr no_call ↦ elim (Bool-cases (cause == 6)) [
          | inl return ↦ rw (no_call, return) (kernel_creturn-Contained c k v fresh)
          | inr other ↦ rw (no_call, other) tt
        ]
      ]

  handle-Contained :
      (k : Kernel Cap) (hw : Hardware)
      → IsRunning k
      → Allowed k hw
      → Contained (handle c l u (nested k) hw)
  unfolding handle
  handle-Contained k hw v allowed =
      let v1 = nested-IsRunning k v in
      elim (Bool-cases (hw.excode == 0)) [
        | inl interrupt ↦ rw interrupt (
            Resumes-Contained _
              (kernel_interrupt-Resumes c.null (nested k) hw.ipending hw.counts v1 allowed.settles))
        | inr no_interrupt ↦ elim (Bool-cases (hw.excode == 8)) [
          | inl syscall ↦
              rw (no_interrupt, syscall)
                (kernel_exception_syscall-Contained c laws l fits u (nested k) v1
                  (allowed.benign (ground arith)))
          | inr no_syscall ↦ elim (Bool-cases (hw.excode == 18)) [
            | inl capability ↦
                rw (no_interrupt, no_syscall, capability)
                  (capability-Contained (nested k) hw.capcause v1 (allowed.refers (ground arith))
                    (allowed.fresh (ground arith)))
            | inr other ↦ rw (no_interrupt, no_syscall, other) tt
          ]
        ]
      ]

  leave-Contained :
      (k : Kernel Cap)
      → IsRunning k
      → Contained (
          let k3 = record k { entered = k.entered - 1 } in
          if k3.entered == 0 then ok k3 else halt panic)
  leave-Contained k v = elim (Bool-cases (k.entered - 1 == 0)) [
    | inl out ↦
        rw out
          (record { sound = Agree-IsSound (agree k) v.sound; framed = v.framed; runs = v.runs })
    | inr deep ↦ rw deep tt
  ]

  -- Any exception in a running kernel, an interrupt, a system call, a CCall, a CReturn or a fault,
  -- leaves an activation running in a sound kernel, or ends in a panic or a trap on a capability of
  -- the caller, provided that the entry is allowed.
  pub kernel_exception-Contained :
      (k : Kernel Cap) (hw : Hardware)
      → IsRunning k
      → Allowed k hw
      → Contained (kernel_exception c l u k hw)
  unfolding kernel_exception
  kernel_exception-Contained k hw v allowed = rw allowed.level (
      bind-Contained (handle c l u (nested k) hw) _ (handle-Contained k hw v allowed)
        (λ k2 v2. leave-Contained k2 v2))
