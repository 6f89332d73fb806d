-- ===== src/Kernel/Inv.antt =====
-- The kernel's invariant between its operations: the ready queue is exact, no waiting activation
-- has mail, each schedulable one has, and interrupts go to activations that exist.
use cherios.Base.{
  ℕ, ◌<◌, ◌≡◌, refl, ◌≢◌, true, Res, ok, halt, panic, assertion, trap, overrun, diverged, ◌>>=◌,
}
use cherios.Kernel.State.{Kernel, is_waiting, is_schedulable, is_runnable, sched_status_of}
use cherios.Kernel.Msg.Ring.{mask, IsRing}
use cherios.Kernel.Ready.Inv.{IsReady}

module _ {Cap : Type 0} where
  pub record IsMailed (k : Kernel Cap) : Type 0 where
    pub rings : (a : ℕ) → a < k.next_act → ((k.acts a).queue_mask ≡ mask) × IsRing (k.queues a)
    pub quiet :
        (a : ℕ) → is_waiting (sched_status_of k a) ≡ true → (k.queues a).start ≡ (k.queues a).end
    pub held :
        (a : ℕ)
        → is_schedulable (sched_status_of k a) ≡ true
        → (k.queues a).start ≢ (k.queues a).end

  -- Interrupts go to activations that exist.
  abbrev pub IsWired : Kernel Cap → Type 0
  IsWired k = (i : ℕ) → k.int_child i ≢ 0 → k.int_child i < k.next_act

  pub record IsSound (k : Kernel Cap) : Type 0 where
    pub ready : IsReady k
    pub mail : IsMailed k
    pub wired : IsWired k

  -- Soundness is a matter of these seven fields.
  abbrev pub Agree : Kernel Cap → Kernel Cap → Type 0
  Agree k k' =
      (k'.acts ≡ k.acts)
      × (k'.queues ≡ k.queues)
      × (k'.aqueue ≡ k.aqueue)
      × (k'.squeue_a ≡ k.squeue_a)
      × (k'.squeue_a_end ≡ k.squeue_a_end)
      × (k'.next_act ≡ k.next_act)
      × (k'.int_child ≡ k.int_child)

  pub Agree-IsSound : {k k' : Kernel Cap} → Agree k k' → IsSound k → IsSound k'
  Agree-IsSound {k} {k'} (acts, queues, aqueue, squeue, end, next, child) v = record {
    ready = record {
      slot = rw (aqueue, squeue, end) v.ready.slot;
      listed = rw (acts, squeue, end) v.ready.listed;
      present = rw (acts, aqueue, squeue, end) v.ready.present;
      known = rw (acts, next) v.ready.known;
      room = rw next v.ready.room;
    };
    mail = record {
      rings = rw (acts, queues, next) v.mail.rings;
      quiet = rw (acts, queues) v.mail.quiet;
      held = rw (acts, queues) v.mail.held;
    };
    wired = rw (next, child) v.wired;
  }

  abbrev pub agree : (k : Kernel Cap) → Agree k k
  agree k = (refl, refl, refl, refl, refl, refl, refl)

  -- The activation that runs is the one whose frame is current, and it may run.
  pub record IsRunning (k : Kernel Cap) : Type 0 where
    pub sound : IsSound k
    pub framed : k.framep ≡ k.curr_act
    pub runs : is_runnable (sched_status_of k k.curr_act) ≡ true

  -- The operation returns a state in which an activation runs, or stops with a panic; no assertion
  -- fails, nothing traps and no loop goes on for ever.
  abbrev pub Resumes : Res (Kernel Cap) → Type 0
  Resumes (ok k) = IsRunning k
  Resumes (halt panic) = Unit
  Resumes (halt assertion) = ⊥
  Resumes (halt trap) = ⊥
  Resumes (halt overrun) = ⊥
  Resumes (halt diverged) = ⊥

  -- The same for an operation that uses capabilities of its caller, and may trap on them.
  abbrev pub Contained : Res (Kernel Cap) → Type 0
  Contained (ok k) = IsRunning k
  Contained (halt panic) = Unit
  Contained (halt assertion) = ⊥
  Contained (halt trap) = Unit
  Contained (halt overrun) = ⊥
  Contained (halt diverged) = ⊥

  pub Resumes-Contained : (r : Res (Kernel Cap)) → Resumes r → Contained r
  Resumes-Contained (ok k) h = h
  Resumes-Contained (halt panic) h = tt
  Resumes-Contained (halt assertion) h = h
  Resumes-Contained (halt trap) h = tt
  Resumes-Contained (halt overrun) h = h
  Resumes-Contained (halt diverged) h = h

  -- An operation that goes on after another one.
  pub bind-Resumes :
      (r : Res (Kernel Cap)) (f : Kernel Cap → Res (Kernel Cap))
      → Resumes r
      → ((k : Kernel Cap) → IsRunning k → Resumes (f k))
      → Resumes (r >>= f)
  bind-Resumes (ok k) f p g = g k p
  bind-Resumes (halt panic) f p g = tt
  bind-Resumes (halt assertion) f p g = p
  bind-Resumes (halt trap) f p g = p
  bind-Resumes (halt overrun) f p g = p
  bind-Resumes (halt diverged) f p g = p

  pub bind-Contained :
      (r : Res (Kernel Cap)) (f : Kernel Cap → Res (Kernel Cap))
      → Contained r
      → ((k : Kernel Cap) → IsRunning k → Contained (f k))
      → Contained (r >>= f)
  bind-Contained (ok k) f p g = g k p
  bind-Contained (halt panic) f p g = tt
  bind-Contained (halt assertion) f p g = p
  bind-Contained (halt trap) f p g = tt
  bind-Contained (halt overrun) f p g = p
  bind-Contained (halt diverged) f p g = p
