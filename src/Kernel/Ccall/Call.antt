-- ===== src/Kernel/Ccall/Call.antt =====
-- CCall of kernel/src/ccall.c as a whole: what it calls, and the kernel afterwards.
use cherios.Base.{
  ℕ, ◌<◌, ◌≡◌, refl, Bool-cases, inl, inr, Option, none, some, Res, ok, halt, trap, panic,
  assertion, overrun, diverged, ◌>>=◌, ◌==◌, bit_and, arith,
}
use cherios.Cheri.{Cheri}
use cherios.Kernel.State.{Kernel, is_alive, current}
use cherios.Kernel.Inv.{IsRunning, Contained, Resumes-Contained}
use cherios.Kernel.Act.{kernel_skip_instr}
use cherios.Kernel.Env.{Layout}
use cherios.Kernel.Ccall.{Mode, perm_store, ccall_to, ccall_target, ccall_by, kernel_ccall, mode_of}
use cherios.Kernel.Ccall.Deliver.{reframed-IsRunning, token_for-cases, push_on, push_on-Resumes}

module _ (c : Cheri) where
  open c use {Cap}

  -- What `ccall_target` finds: a registered activation, or a trap on a bad capability.
  abbrev pub Refers : Kernel Cap → Res (ℕ × Cap) → Type 0
  Refers k (ok (cb, cs)) = (0 < (k.acts cb).aid) × ((k.acts cb).aid < k.next_act)
  Refers k (halt panic) = ⊥
  Refers k (halt assertion) = ⊥
  Refers k (halt trap) = Unit
  Refers k (halt overrun) = ⊥
  Refers k (halt diverged) = ⊥

  ccall_to-Contained :
      (k : Kernel Cap) (mode : Mode) (cb : ℕ) (cs : Cap)
      → IsRunning k
      → 0 < (k.acts cb).aid
      → (k.acts cb).aid < k.next_act
      → Contained (ccall_to c k mode cb cs)
  unfolding ccall_to push_on
  ccall_to-Contained k mode cb cs v pos lt =
      elim (Bool-cases (bit_and (c.get_perm cs) perm_store == 0)) [
        | inl bad ↦ rw bad v
        | inr good ↦ rw good (elim (Bool-cases (is_alive (k.acts cb).status)) [
          | inr gone ↦ rw gone v
          | inl live ↦ rw live (elim (token_for-cases c k mode cb v) [
            | inl e ↦ rw e tt
            | inr (t, k1, e, w) ↦ rw e (
                Resumes-Contained _ (
                  push_on-Resumes c k1 mode cb cs t w.running (rw w.aid pos)
                    (rw (w.aid, w.next) lt)))
          ])
        ])
      ]

  module _ (l : Layout) where
    core-Contained :
        (k : Kernel Cap) (mode : Mode) (r : Res (ℕ × Cap))
        → IsRunning k
        → Refers k r
        → Contained (r >>= λ (cb, cs). ccall_to c k mode cb cs)
    core-Contained k mode (ok (cb, cs)) v h = ccall_to-Contained k mode cb cs v h.0 h.1
    core-Contained k mode (halt trap) v h = tt
    core-Contained k mode (halt panic) v h = tt
    core-Contained k mode (halt assertion) v h = h
    core-Contained k mode (halt overrun) v h = h
    core-Contained k mode (halt diverged) v h = h

    pub skipped-target :
        (k : Kernel Cap) → ccall_target c l (kernel_skip_instr c k k.curr_act) ≡ ccall_target c l k
    unfolding ccall_target kernel_skip_instr
    skipped-target k =
        let one : (current (kernel_skip_instr c k k.curr_act)).c1 ≡ (current k).c1 = ground arith in
        let two : (current (kernel_skip_instr c k k.curr_act)).c2 ≡ (current k).c2 = ground arith in
        rw (one, two) refl

    ccall_by-Contained :
        (k : Kernel Cap) (m : Option Mode)
        → IsRunning k
        → Refers k (ccall_target c l k)
        → Contained (ccall_by c l k m)
    unfolding ccall_by
    ccall_by-Contained k none v h = v
    ccall_by-Contained k (some mode) v h = core-Contained k mode (ccall_target c l k) v h

    -- A CCall in a running kernel, whatever its selector and its capabilities, ends with an
    -- activation running in a sound kernel, or in a panic, or traps; provided that a reference
    -- that unseals refers to a registered activation.
    pub kernel_ccall-Contained :
        (k : Kernel Cap)
        → IsRunning k
        → Refers k (ccall_target c l k)
        → Contained (kernel_ccall c l k)
    unfolding kernel_ccall
    kernel_ccall-Contained k v h =
        ccall_by-Contained _ (mode_of (current k).v1) (reframed-IsRunning k _ v)
          (rw (skipped-target k) h)
