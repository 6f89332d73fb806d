-- ===== src/Kernel/Syscalls/Dispatch.antt =====
-- The system calls that act on an activation: registration, revocation and termination.
use cherios.Base.{
  ℕ, ◌%◌, ◌^◌, ◌<◌, ◌≡◌, ◌≢◌, refl, false, Option, Bool-cases, ◌⊎◌, inl, inr, Res, ok, halt, panic,
  assertion, trap, overrun, diverged, or_trap, ◌>>=◌, ◌==◌, leb, if◌then◌else◌, two_32, arith,
}
use cherios.Cheri.{Cheri}
use cherios.Kernel.State.{Kernel, Frame, current, set_current, max_activations}
use cherios.Kernel.Ready.Inv.{Queued}
use cherios.Kernel.Inv.{IsSound, IsRunning, Contained, Resumes-Contained}
use cherios.Kernel.Sched.{sched_reschedule}
use cherios.Kernel.Sched.Resume.{sched_reschedule-Resumes}
use cherios.Kernel.Env.{Layout, Text, kernel_seal, vcap}
use cherios.Kernel.Act.{
  ctrl_aid, revoke_aid, act_name, act_create_ref, act_create_ctrl_ref, act_register, act_revoke,
  act_terminate,
}
use cherios.Kernel.Act.Terminate.{ended, act_terminate-Queued}
use cherios.Kernel.Ccall.Deliver.{reframed-IsRunning}
use cherios.Kernel.Syscalls.{UserMemory, return_v0, syscall_act_terminate}
use cherios.Kernel.Syscalls.Effects.{Mild, bind-Mild, or_trap-Mild}
use cherios.Kernel.Syscalls.Safe.{revoke-Contained}

module _ {Cap : Type 0} where
  -- What is ended is in the ready queue, or its reference traps.
  abbrev pub Ends : Kernel Cap → Res ℕ → Type 0
  Ends k (ok a) = Queued k a
  Ends k (halt panic) = ⊥
  Ends k (halt assertion) = ⊥
  Ends k (halt trap) = Unit
  Ends k (halt overrun) = ⊥
  Ends k (halt diverged) = ⊥

  Ends-cases :
      (k : Kernel Cap) (r : Res ℕ)
      → Ends k r
      → ((a : ℕ) × (r ≡ ok a) × Queued k a) ⊎ (r ≡ halt trap)
  Ends-cases k (ok a) h = inl (a, refl, h)
  Ends-cases k (halt panic) h = absurd h
  Ends-cases k (halt assertion) h = absurd h
  Ends-cases k (halt trap) h = inr refl
  Ends-cases k (halt overrun) h = absurd h
  Ends-cases k (halt diverged) h = absurd h

  -- The kernel is reached only once a number is known.
  bind-v0-Contained :
      (r : Res ℕ) (f : ℕ → Res (ℕ × Kernel Cap))
      → Mild r
      → ((a : ℕ) → Contained (return_v0 (f a)))
      → Contained (return_v0 (r >>= f))
  bind-v0-Contained (ok a) f m g = g a
  bind-v0-Contained (halt panic) f m g = tt
  bind-v0-Contained (halt assertion) f m g = m
  bind-v0-Contained (halt trap) f m g = tt
  bind-v0-Contained (halt overrun) f m g = m
  bind-v0-Contained (halt diverged) f m g = m

  outlived-IsRunning :
      (k : Kernel Cap) (a : ℕ)
      → IsRunning k
      → IsSound (ended k a)
      → a ≢ k.curr_act
      → IsRunning (ended k a)
  outlived-IsRunning k a v w ne = record {
    sound = w;
    framed = v.framed;
    runs = ground (arith, v.runs);
  }

  -- What follows `act_terminate`, for either result.
  finish-Contained :
      (k : Kernel Cap) (a : ℕ)
      → IsRunning k
      → IsSound (ended k a)
      → Contained (
          if (if a == k.curr_act then 1 else 0) == 1
          then sched_reschedule (ended k a) 0
          else ok (
              set_current
                (ended k a)
                (record (current (ended k a)) { v0 = if a == k.curr_act then 1 else 0 })))
  finish-Contained k a v w = elim (Bool-cases (a == k.curr_act)) [
    | inl self ↦ rw self (Resumes-Contained _ (sched_reschedule-Resumes (ended k a) 0 w))
    | inr other ↦
        rw other (reframed-IsRunning (ended k a) _ (outlived-IsRunning k a v w (ground arith)))
  ]

module _ (c : Cheri) (l : Layout) where
  open c use {Cap}

  terminate-trap :
      (k : Kernel Cap) (ctrl : Cap)
      → ctrl_aid c l k ctrl ≡ halt trap
      → act_terminate c l k ctrl ≡ halt trap
  unfolding act_terminate
  terminate-trap k ctrl e = rw e refl

  pub terminate-Contained :
      (u : UserMemory c) (k : Kernel Cap)
      → IsRunning k
      → Ends k (ctrl_aid c l k (current k).c3)
      → Contained (syscall_act_terminate c l u k)
  unfolding syscall_act_terminate
  terminate-Contained u k v h = elim (Ends-cases k (ctrl_aid c l k (current k).c3) h) [
    | inl (a, found, queued) ↦
        let (done, sound, _) = act_terminate-Queued c l k (current k).c3 a v.sound found queued in
        rw done (finish-Contained k a v sound)
    | inr traps ↦ rw (terminate-trap k (current k).c3 traps) tt
  ]

  pub revoke_by-Contained :
      (k : Kernel Cap)
      → IsRunning k
      → Mild (ctrl_aid c l k (current k).c3)
      → Contained (return_v0 (act_revoke c l k (current k).c3))
  unfolding act_revoke
  revoke_by-Contained k v m =
      bind-v0-Contained (ctrl_aid c l k (current k).c3) (revoke_aid k) m
        (λ a. revoke-Contained k a v)

  name-Mild : (name : Text c) → c.get_len name.cap % two_32 < 2 ^ 31 → Mild (act_name c name)
  unfolding act_name
  name-Mild name lt =
      let short : leb (2 ^ 31) (c.get_len name.cap % two_32) ≡ false = ground arith in
      elim (Bool-cases (vcap c name.cap 1 4)) [
        | inl good ↦ rw (good, short) tt
        | inr bad ↦ rw bad tt
      ]

  pub register-Mild :
      (k : Kernel Cap) (frame : Option (Frame Cap)) (name : Text c)
      → c.get_len name.cap % two_32 < 2 ^ 31
      → Mild (act_register c l k frame name)
  unfolding act_register act_create_ref act_create_ctrl_ref kernel_seal
  register-Mild k frame name lt = elim (Bool-cases (leb max_activations k.next_act)) [
    | inl full ↦ rw full tt
    | inr room ↦ rw room (
        bind-Mild (act_name c name) _ (name-Mild name lt) (λ text.
          bind-Mild (or_trap frame) _ (or_trap-Mild frame) (λ regs.
            bind-Mild (act_create_ref c l k.next_act) _ (or_trap-Mild _) (λ reference.
              bind-Mild (kernel_seal c k.act_default_id k.next_act) _ (or_trap-Mild _) (λ id.
                bind-Mild (act_create_ctrl_ref c l k.next_act) _ (or_trap-Mild _) (λ ctrl. tt))))))
  ]
