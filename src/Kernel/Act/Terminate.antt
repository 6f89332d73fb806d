-- ===== src/Kernel/Act/Terminate.antt =====
-- Revocation and termination: the life cycle of an activation, and its place in the ready queue.
use cherios.Base.{
  ℕ, ◌+◌, ◌-◌, ◌≤◌, ◌<◌, ◌≡◌, false, ok, >>=-eq-ok, update, ◌==◌, if◌then◌else◌, arith,
}
use cherios.Cheri.{Cheri}
use cherios.Kernel.State.{
  Kernel, Status, dead, waiting, terminated, sched_status_of, set_status, set_sched_status,
}
use cherios.Kernel.Ready.{sched_delete}
use cherios.Kernel.Ready.Inv.{IsReady, Queued, is_queued, left, end-lt}
use cherios.Kernel.Inv.{IsSound}
use cherios.Kernel.Env.{Layout}
use cherios.Kernel.Act.{ctrl_aid, revoke_aid, act_revoke, act_terminate, status_number}

-- The order of an activation's life: alive, revoked, terminated.
abbrev pub Ages : Status → Status → Type 0
Ages s t = status_number s ≤ status_number t

module _ {Cap : Type 0} where
  -- The queue without `a`, and the kernel after `a` has been terminated.
  abbrev pub dequeued : Kernel Cap → ℕ → Kernel Cap
  dequeued k a =
      let last = k.squeue_a_end - 1 in
      record k {
        squeue_a_end = last;
        squeue_a = update k.squeue_a (k.aqueue a) (k.squeue_a last);
        aqueue = update k.aqueue (k.squeue_a last) (k.aqueue a);
      }

  abbrev pub ended : Kernel Cap → ℕ → Kernel Cap
  ended k a = set_sched_status (set_status (dequeued (set_status k a dead) a) a dead) a terminated

  ended-IsReady : (k : Kernel Cap) (a : ℕ) → IsReady k → Queued k a → IsReady (ended k a)
  ended-IsReady k a v q =
      let last = v.slot (k.squeue_a_end - 1) in
      record {
        slot = λ i h. ground (arith, v.slot i, last, v.present a q);
        listed = λ i h.
            ground
              (arith, v.listed i, v.slot i, v.listed (k.squeue_a_end - 1), last, v.present a q);
        present = λ b h. ground (arith, v.present b, v.present a q, last);
        known = λ b h. ground (arith, v.known b);
        room = v.room;
      }

  ended-IsSound : (k : Kernel Cap) (a : ℕ) → IsSound k → Queued k a → IsSound (ended k a)
  ended-IsSound k a v q = record {
    ready = ended-IsReady k a v.ready q;
    mail = record {
      rings = λ b h. ground (arith, v.mail.rings b h);
      quiet = λ b h. ground (arith, v.mail.quiet b);
      held = λ b h. ground (arith, v.mail.held b);
    };
    wired = λ i h. ground (arith, v.wired i);
  }

  -- `sched_delete` when the slot of `a` names `a`, whether `a` is in the queue or not
  delete-slot :
      (k : Kernel Cap) (a : ℕ)
      → k.squeue_a (k.aqueue a) ≡ a
      → 0 < k.squeue_a_end
      → k.squeue_a_end ≤ 32
      → sched_delete (set_status k a dead) a
        ≡ ok (set_status (dequeued (set_status k a dead) a) a dead)
  unfolding sched_delete
  delete-slot k a e pos lt = ground arith

  -- A slot of the queue's array past its end that still names a parked activation.
  pub record IsStale (k : Kernel Cap) (a : ℕ) : Type 0 where
    pub parked : is_queued (sched_status_of k a) ≡ false
    pub stale : k.squeue_a (k.aqueue a) ≡ a
    pub others : 0 < k.squeue_a_end

  -- The activation at the end of the queue leaves its slot stale when it is parked.
  pub left-IsStale :
      (k : Kernel Cap) (a : ℕ)
      → IsReady k
      → Queued k a
      → k.aqueue a + 1 ≡ k.squeue_a_end
      → 1 < k.squeue_a_end
      → IsStale (left k a waiting) a
  left-IsStale k a v q last more = ground (arith, v.present a q)

  revoked-Ages :
      (k : Kernel Cap) (aid a r : ℕ) (k' : Kernel Cap)
      → revoke_aid k aid ≡ ok (r, k')
      → Ages (k.acts a).status (k'.acts a).status
  unfolding revoke_aid
  revoked-Ages k aid a r k' e = ground arith

module _ (c : Cheri) (l : Layout) where
  open c use {Cap}

  -- In a sound kernel, terminating a queued activation through its control reference takes it out
  -- of the queue, marks it terminated and leaves the kernel sound; the result is 1 if it is the
  -- current activation and 0 otherwise.
  pub act_terminate-Queued :
      (k : Kernel Cap) (ctrl : Cap) (a : ℕ)
      → IsSound k
      → ctrl_aid c l k ctrl ≡ ok a
      → Queued k a
      → (act_terminate c l k ctrl ≡ ok ((if a == k.curr_act then 1 else 0), ended k a))
        × IsSound (ended k a)
        × (((ended k a).acts a).status ≡ dead)
  unfolding act_terminate
  act_terminate-Queued k ctrl a v e q =
      let gone =
        delete-slot k a (v.ready.present a q).1 (omega (arith, v.ready.present a q))
          (end-lt v.ready) in
      (rw (e, gone) (ground arith), ended-IsSound k a v q, ground arith)

  -- In a sound kernel, terminating a parked activation whose old slot still names it takes one
  -- entry too many out of the queue: an activation that may run is no longer listed.
  pub act_terminate-stale :
      (k : Kernel Cap) (ctrl : Cap) (a : ℕ)
      → IsSound k
      → ctrl_aid c l k ctrl ≡ ok a
      → IsStale k a
      → (r : ℕ) × (k' : Kernel Cap) × (act_terminate c l k ctrl ≡ ok (r, k'))
        × (k'.squeue_a_end + 1 ≡ k.squeue_a_end)
        × Queued k' (k.squeue_a (k.squeue_a_end - 1))
        × (k'.squeue_a_end ≤ k'.aqueue (k.squeue_a (k.squeue_a_end - 1)))
  unfolding act_terminate
  act_terminate-stale k ctrl a v e s =
      let gone = delete-slot k a s.stale s.others (end-lt v.ready) in
      let last = v.ready.listed (k.squeue_a_end - 1) (omega (arith, s.others)) in
      (
        (if a == k.curr_act then 1 else 0),
        ended k a,
        rw (e, gone) (ground arith),
        omega (arith, s.others),
        ground (arith, last, s.parked),
        ground (arith, v.ready.listed (k.aqueue a), s.parked, s.stale),
      )

  -- When `act_revoke` returns, no activation's status has become younger: alive comes before revoked,
  -- revoked before terminated.
  pub act_revoke-Ages :
      (k : Kernel Cap) (ctrl : Cap) (r : ℕ) (k' : Kernel Cap)
      → act_revoke c l k ctrl ≡ ok (r, k')
      → (a : ℕ) → Ages (k.acts a).status (k'.acts a).status
  unfolding act_revoke
  act_revoke-Ages k ctrl r k' e a =
      let (aid, _, done) = >>=-eq-ok (ctrl_aid c l k ctrl) _ e in revoked-Ages k aid a r k' done
