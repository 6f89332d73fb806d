-- ===== src/Kernel/Act/Wait.antt =====
-- `act_wait`: the running activation gives up the processor.
use cherios.Base.{
  ℕ, ◌≡◌, refl, ◌∙◌, ◌≢◌, true, Bool-cases, inl, inr, ok, ◌==◌, if◌then◌else◌, arith,
}
use cherios.Kernel.State.{
  Kernel, SchedStatus, waiting, schedulable, is_waiting, is_runnable, sched_status_of,
  set_sched_status,
}
use cherios.Kernel.Msg.{msg_queue_empty}
use cherios.Kernel.Ready.Inv.{Queued, is_parked, left, a2d-eq, left-IsReady}
use cherios.Kernel.Inv.{IsSound, Resumes}
use cherios.Kernel.Sched.{sched_reschedule}
use cherios.Kernel.Sched.Resume.{sched_reschedule-Resumes, sched_reschedule-Queued}
use cherios.Kernel.Act.{act_wait}

module _ {Cap : Type 0} where
  -- Parking an activation: with no mail it may wait, and it may always block.
  pub left-IsSound :
      (k : Kernel Cap) (a : ℕ) (s : SchedStatus)
      → IsSound k
      → Queued k a
      → is_parked s ≡ true
      → (is_waiting s ≡ true → (k.queues a).start ≡ (k.queues a).end)
      → IsSound (left k a s)
  left-IsSound k a s v q p calm = record {
    ready = left-IsReady a s v.ready q (ground arith);
    mail = record {
      rings = λ b h. ground (arith, v.mail.rings b h);
      quiet = λ b h. ground (arith, v.mail.quiet b);
      held = λ b h. ground (arith, v.mail.held b);
    };
    wired = λ i h. ground (arith, v.wired i);
  }

  -- An activation with mail waits for its next turn in the queue.
  requeued-IsSound :
      (k : Kernel Cap) (a : ℕ)
      → IsSound k
      → Queued k a
      → (k.queues a).start ≢ (k.queues a).end
      → IsSound (set_sched_status k a schedulable)
  requeued-IsSound k a v q full = record {
    ready = record {
      slot = v.ready.slot;
      listed = λ i h. ground (arith, v.ready.listed i h);
      present = λ b h. ground (arith, v.ready.present b, v.ready.present a);
      known = λ b h. ground (arith, v.ready.known b, v.ready.known a);
      room = v.ready.room;
    };
    mail = record {
      rings = λ b h. ground (arith, v.mail.rings b h);
      quiet = λ b h. ground (arith, v.mail.quiet b);
      held = λ b h. ground (arith, v.mail.held b);
    };
    wired = λ i h. ground (arith, v.wired i);
  }

  -- The kernel after the first half of `act_wait`.
  abbrev pub parked : Kernel Cap → ℕ → Kernel Cap
  parked k a =
      if (k.queues a).start == (k.queues a).end
      then left k a waiting
      else set_sched_status k a schedulable

  pub parked-IsSound : (k : Kernel Cap) (a : ℕ) → IsSound k → Queued k a → IsSound (parked k a)
  parked-IsSound k a v q = elim (Bool-cases ((k.queues a).start == (k.queues a).end)) [
    | inl e ↦ rw e (left-IsSound k a waiting v q refl (λ w. ground arith))
    | inr ne ↦ rw ne (requeued-IsSound k a v q (ground arith))
  ]

  pub act_wait-eq :
      (k : Kernel Cap) (a hint : ℕ)
      → IsSound k
      → is_runnable (sched_status_of k a) ≡ true
      → act_wait k a hint ≡ sched_reschedule (parked k a) hint
  unfolding act_wait msg_queue_empty
  act_wait-eq k a hint v r = elim (Bool-cases ((k.queues a).start == (k.queues a).end)) [
    | inl e ↦ rw (r, e, a2d-eq k a waiting v.ready (ground arith) refl) refl
    | inr ne ↦ rw (r, ne) refl
  ]

  pub act_wait-Resumes :
      (k : Kernel Cap) (a hint : ℕ)
      → IsSound k
      → is_runnable (sched_status_of k a) ≡ true
      → Resumes (act_wait k a hint)
  act_wait-Resumes k a hint v r =
      rw (act_wait-eq k a hint v r)
        (sched_reschedule-Resumes (parked k a) hint (parked-IsSound k a v (ground arith)))

  -- In a sound kernel, when a runnable activation waits with a hint that is runnable and another
  -- activation, the hint gets the processor.
  pub act_wait-hint :
      (k : Kernel Cap) (a hint : ℕ)
      → IsSound k
      → is_runnable (sched_status_of k a) ≡ true
      → is_runnable (sched_status_of k hint) ≡ true
      → a ≢ hint
      → act_wait k a hint ≡ ok (record (parked k a) { curr_act = hint; framep = hint })
  act_wait-hint k a hint v r h ne =
      let kept : is_runnable (sched_status_of (parked k a) hint) ≡ true = ground arith in
      act_wait-eq k a hint v r
      ∙ sched_reschedule-Queued (parked k a) hint (parked-IsSound k a v (ground arith))
          (ground arith)
      ∙ ground arith
