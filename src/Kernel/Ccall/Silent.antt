-- ===== src/Kernel/Ccall/Silent.antt =====
-- The CReturn of a callee that gives back no token, in kernel/src/ccall.c: the callee waits, and its
-- caller is still blocked.
use cherios.Base.{ℕ, ◌≡◌, ◌⊎◌, inl, inr, ap, ◌∙◌, true, ok, halt, panic, arith}
use cherios.Cheri.{Cheri, Laws}
use cherios.Kernel.State.{Kernel, Frame, is_sync_block, current, set_current}
use cherios.Kernel.Act.{kernel_skip_instr}
use cherios.Kernel.Act.Blocked.{Alone, Holds, act_wait-Holds}
use cherios.Kernel.Ccall.{kernel_creturn}
use cherios.Kernel.Ccall.Deliver.{reframed-IsRunning}
use cherios.Kernel.Ccall.Rpc.{IsOpen, called}
use cherios.Kernel.Ccall.Roundtrip.{IsWaiting, called-IsWaiting}

module _ (c : Cheri) (laws : Laws c) (k : Kernel c.Cap) (cb : ℕ) (cs bare t : c.Cap) where
  open c use {Cap}

  -- The kernel switches to another activation, or there is none and it panics.
  abbrev pub Waits : Kernel Cap → Frame Cap → Type 0
  Waits k' f =
      ((kernel_creturn c (set_current k' f) ≡ halt panic) × Alone k' k'.curr_act)
      ⊎ ((k2 : Kernel Cap) × (kernel_creturn c (set_current k' f) ≡ ok k2)
          × IsWaiting c laws k cb cs bare t k2)

  Holds-IsWaiting :
      (k' k2 : Kernel Cap)
      → IsWaiting c laws k cb cs bare t k'
      → Holds k' k.curr_act k2
      → IsWaiting c laws k cb cs bare t k2
  Holds-IsWaiting k' k2 w held = record {
    running = held.running;
    blocked = ap (λ a. is_sync_block a.sched_status) held.entry ∙ w.blocked;
    expects = ap (λ a. a.expected_reply) held.entry ∙ w.expects;
    known = rw held.next w.known;
  }

  pub kernel_creturn-Waits :
      (k' : Kernel Cap) (f : Frame Cap)
      → IsWaiting c laws k cb cs bare t k'
      → c.is_null f.c1 ≡ true
      → Waits k' f
  unfolding kernel_creturn kernel_skip_instr
  kernel_creturn-Waits k' f w silent =
      let k1 = set_current k' f in
      let k2 = kernel_skip_instr c k1 k1.curr_act in
      let none_kept : c.is_null (current k2).c1 ≡ true = ground (arith, silent) in
      let stands = reframed-IsRunning k' k2.frames w.running in
      rw none_kept
        (elim (act_wait-Holds k2 k'.curr_act k.curr_act k'.curr_act stands.sound stands.runs
          w.blocked) [
            | inl stops ↦ inl stops
            | inr (k3, done, held) ↦ inr (
              k3,
              done,
              Holds-IsWaiting k' k3 w
                  (record { running = held.running; entry = held.entry; next = held.next }),
            )
          ])

  -- The call itself leaves the caller waiting.
  pub called-Waits :
      (f : Frame Cap)
      → IsOpen c k cb cs bare t
      → c.is_null f.c1 ≡ true
      → Waits (called c k cb cs bare t) f
  called-Waits f o =
      kernel_creturn-Waits (called c k cb cs bare t) f (called-IsWaiting c laws k cb cs bare t o)
