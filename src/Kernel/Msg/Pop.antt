-- ===== src/Kernel/Msg/Pop.antt =====
-- What `msg_pop` does to a schedulable activation's queue and frame.
use cherios.Base.{ℕ, ◌+◌, ◌-◌, ◌%◌, ◌<◌, ◌≡◌, refl, ◌∙◌, ◌≢◌, true, ok, ◌∷◌, update, arith}
use cherios.Kernel.State.{
  Kernel, Msg, Queue, runnable, is_schedulable, sched_status_of, set_sched_status,
}
use cherios.Kernel.Msg.{deliver, msg_pop}
use cherios.Kernel.Msg.Ring.{IsRing, count, pending, step_slot-eq, slots-shift}
use cherios.Kernel.Ready.Inv.{IsReady}
use cherios.Kernel.Inv.{IsMailed, IsSound}

module _ {Cap : Type 0} where
  -- The queue with its oldest message gone.
  abbrev pub rest_of : Queue Cap → Queue Cap
  rest_of q = record q { start = (q.start + 1) % 16 }

  -- The kernel after `msg_pop`.
  abbrev pub popped : Kernel Cap → ℕ → Kernel Cap
  popped k a =
      let q = k.queues a in
      record k {
        frames = update k.frames a (deliver (k.frames a) (q.msg q.start));
        queues = update k.queues a (rest_of q);
      }

  abbrev pub Schedulable : Kernel Cap → ℕ → Type 0
  Schedulable k a = is_schedulable (sched_status_of k a) ≡ true

  pub msg_pop-eq :
      (k : Kernel Cap) (a : ℕ)
      → IsMailed k
      → Schedulable k a
      → a < k.next_act
      → msg_pop k a ≡ ok (popped k a)
  unfolding msg_pop
  msg_pop-eq k a v s lt = ground (arith, v.rings a lt, v.held a s, step_slot-eq (k.queues a).start)

  pub pending-pop :
      (q : Queue Cap) → IsRing q → q.start ≢ q.end → pending q ≡ q.msg q.start ∷ pending (rest_of q)
  pending-pop q v ne =
      let fewer : count q - 1 ≡ count (rest_of q) = omega (arith, v) in
      slots-shift q.msg q.start (count q) (omega (arith, v)) ∙ rw fewer refl

  -- The kernel after `sched_schedule`.
  abbrev pub dispatched : Kernel Cap → ℕ → Kernel Cap
  dispatched k a = set_sched_status (popped k a) a runnable

  dispatched-IsReady :
      (k : Kernel Cap) (a : ℕ) → IsReady k → Schedulable k a → IsReady (dispatched k a)
  dispatched-IsReady k a v s = record {
    slot = v.slot;
    listed = λ i h. ground (arith, v.listed i h);
    present = λ b h. ground (arith, v.present b, v.present a);
    known = λ b h. ground (arith, v.known b, v.known a);
    room = v.room;
  }

  dispatched-IsMailed :
      (k : Kernel Cap) (a : ℕ)
      → IsMailed k
      → Schedulable k a
      → a < k.next_act
      → IsMailed (dispatched k a)
  dispatched-IsMailed k a v s lt = record {
    rings = λ b h. ground (arith, v.rings b, v.rings a);
    quiet = λ b h. ground (arith, v.quiet b);
    held = λ b h. ground (arith, v.held b);
  }

  pub dispatched-IsSound :
      (k : Kernel Cap) (a : ℕ) → IsSound k → Schedulable k a → IsSound (dispatched k a)
  dispatched-IsSound k a v s = record {
    ready = dispatched-IsReady k a v.ready s;
    mail = dispatched-IsMailed k a v.mail s (v.ready.known a (ground arith)).1;
    wired = v.wired;
  }

  -- In a sound kernel `msg_pop` of a schedulable activation meets no empty queue: the oldest
  -- message goes into the activation's frame, the rest stays in order, and nothing else changes: no
  -- other queue or frame, and no other variable of the kernel.
  pub msg_pop-pending :
      (k : Kernel Cap) (a : ℕ)
      → IsSound k
      → Schedulable k a
      → (k' : Kernel Cap) × (m : Msg Cap) × (msg_pop k a ≡ ok k')
        × (pending (k.queues a) ≡ m ∷ pending (k'.queues a))
        × (k'.frames a ≡ deliver (k.frames a) m)
        × ((b : ℕ) → b ≢ a → (k'.queues b ≡ k.queues b) × (k'.frames b ≡ k.frames b))
        × (k' ≡ record k { queues = k'.queues; frames = k'.frames })
  msg_pop-pending k a v s =
      let lt = (v.ready.known a (ground arith)).1 in
      let rest : (popped k a).queues a ≡ rest_of (k.queues a) = ground arith in
      (
        popped k a,
        (k.queues a).msg (k.queues a).start,
        msg_pop-eq k a v.mail s lt,
        rw rest (pending-pop (k.queues a) (v.mail.rings a lt).1 (v.mail.held a s)),
        ground arith,
        λ b h. ground arith,
        refl,
      )
