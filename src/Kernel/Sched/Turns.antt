-- ===== src/Kernel/Sched/Turns.antt =====
-- The order in which sched_reschedule of kernel/src/sched.c gives the processor.
use cherios.Base.{
  ℕ, zero, suc, ◌+◌, ◌-◌, ◌%◌, ◌≤◌, ◌<◌, ◌≡◌, refl, ap, ◌∙◌, ◌≢◌, ◌⊎◌, inl, inr, Bool-cases, Res,
  ok, ◌>>=◌, two_32, ltb, arith,
}
use native.Mathlib.Nat.{mod_self}
use cherios.Kernel.State.{Kernel, is_schedulable, sched_status_of}
use cherios.Kernel.Ready.Inv.{Queued, end-lt}
use cherios.Kernel.Inv.{IsSound, IsRunning}
use cherios.Kernel.Sched.{sched_reschedule}
use cherios.Kernel.Sched.Resume.{
  switched, next_slot, advanced, picked, picked-Queued, sched_rounds-next, advanced-IsSound,
  switched-IsRunning,
}

-- Where the index goes, one slot at a time.
next-slot :
    (index last : ℕ)
    → index < last
    → last ≤ 32
    → (((index + 1) % two_32 % last ≡ index + 1) × (index + 1 < last))
      ⊎ (((index + 1) % two_32 % last ≡ 0) × (index + 1 ≡ last))
next-slot index last lt short = elim (Bool-cases (ltb (index + 1) last)) [
  | inl more ↦ inl (grind arith, ground arith)
  | inr wraps ↦
      let here : (index + 1) % two_32 ≡ last = ground arith in
      inr (rw here (mod_self last), ground arith)
]

module _ {Cap : Type 0} where
  -- `n` times `sched_reschedule(0)`, as the timer's interrupt and `syscall_sleep` call it.
  abbrev pub ticks : ℕ → Kernel Cap → Res (Kernel Cap)
  ticks zero k = ok k
  ticks (suc n) k = sched_reschedule k 0 >>= ticks n

  -- One turn
  abbrev pub turned : Kernel Cap → Kernel Cap
  turned k = switched (advanced k) (picked k)

  tick-eq : (k : Kernel Cap) → IsSound k → k.squeue_a_end ≢ 0 → sched_reschedule k 0 ≡ ok (turned k)
  unfolding sched_reschedule
  tick-eq k v ne = sched_rounds-next 33 k v ne

  turned-IsRunning : (k : Kernel Cap) → IsSound k → k.squeue_a_end ≢ 0 → IsRunning (turned k)
  turned-IsRunning k v ne =
      switched-IsRunning (advanced k) (picked k) (advanced-IsSound k v) (picked-Queued k v ne)

  -- A turn keeps the ready queue.
  record Turn (k k' : Kernel Cap) : Type 0 where
    same_end : k'.squeue_a_end ≡ k.squeue_a_end
    same_slots : k'.aqueue ≡ k.aqueue
    same_queue : k'.squeue_a ≡ k.squeue_a
    index : k'.squeue_a_idx ≡ next_slot k
    current_act : k'.curr_act ≡ picked k
    queued : (a : ℕ) → Queued k a → Queued k' a

  turned-Turn : (k : Kernel Cap) → Turn k (turned k)
  turned-Turn k = elim (Bool-cases (is_schedulable (sched_status_of k (picked k)))) [
    | inl s ↦ rw s (record {
      same_end = refl;
      same_slots = refl;
      same_queue = refl;
      index = refl;
      current_act = refl;
      queued = λ a q. ground arith;
    })
    | inr s ↦ rw s (record {
      same_end = refl;
      same_slots = refl;
      same_queue = refl;
      index = refl;
      current_act = refl;
      queued = λ a q. q;
    })
  ]

  -- The slots that are left before the one of `a`, around the end of the queue.
  abbrev Distance : Kernel Cap → ℕ → ℕ → Type 0
  Distance k a n = (next_slot k + n ≡ k.aqueue a) ⊎ (next_slot k + n ≡ k.aqueue a + k.squeue_a_end)

  -- The activation `a` has the processor after a number of ticks.
  abbrev pub Served : Kernel Cap → ℕ → ℕ → Type 0
  Served k a n = (k' : Kernel Cap) × (ticks n k ≡ ok k') × (k'.curr_act ≡ a) × IsRunning k'

  closer :
      (k k' : Kernel Cap) (a n : ℕ)
      → IsSound k
      → Queued k a
      → Turn k k'
      → Distance k a (suc n)
      → Distance k' a n
  closer k k' a n v q t d =
      let slot = v.ready.present a q in
      let short = end-lt v.ready in
      let inside : next_slot k < k.squeue_a_end = ground (arith, slot) in
      let next : next_slot k' ≡ (next_slot k + 1) % two_32 % k.squeue_a_end =
        rw (t.index, t.same_end) refl in
      elim (next-slot (next_slot k) k.squeue_a_end inside short) [
        | inl (on, more) ↦ ground (arith, d, slot, t.same_slots, t.same_end)
        | inr (back, last) ↦ ground (arith, d, slot, t.same_slots, t.same_end)
      ]

  arrived : (k : Kernel Cap) (a : ℕ) → IsSound k → Queued k a → Distance k a 0 → picked k ≡ a
  arrived k a v q d =
      let slot = v.ready.present a q in
      let inside : next_slot k < k.squeue_a_end = ground (arith, slot) in
      let here : next_slot k ≡ k.aqueue a = ground (arith, d) in ap k.squeue_a here ∙ slot.1

  occupied : (k : Kernel Cap) (a : ℕ) → IsSound k → Queued k a → k.squeue_a_end ≢ 0
  occupied k a v q none = omega (arith, v.ready.present a q, none)

  turns :
      (n : ℕ) (k : Kernel Cap) (a : ℕ)
      → IsSound k
      → Queued k a
      → Distance k a n
      → Served k a (suc n)
  turns zero k a v q d =
      let some_left = occupied k a v q in
      (
        turned k,
        rw (tick-eq k v some_left) refl,
        (turned-Turn k).current_act ∙ arrived k a v q d,
        turned-IsRunning k v some_left,
      )
  turns (suc n) k a v q d =
      let some_left = occupied k a v q in
      let t = turned-Turn k in
      let (k', done, now, v') =
        turns n (turned k) a (turned-IsRunning k v some_left).sound (t.queued a q)
          (closer k (turned k) a n v q t d) in
      (k', rw (tick-eq k v some_left) done, now, v')

  -- In a sound kernel, each activation in the ready queue has the processor after a number of
  -- ticks that is positive and at most the queue's length, and the kernel is still sound.
  pub ticks-Served :
      (k : Kernel Cap) (a : ℕ)
      → IsSound k
      → Queued k a
      → (n : ℕ) × (0 < n) × (n ≤ k.squeue_a_end) × Served k a n
  ticks-Served k a v q =
      let (slot, _) = v.ready.present a q in
      let index = next_slot k in
      let inside : index < k.squeue_a_end = ground (arith, slot) in
      elim (Bool-cases (ltb (k.aqueue a) index)) [
        | inl behind ↦
            let n = k.aqueue a + k.squeue_a_end - index in
            (suc n, omega arith, ground arith, turns n k a v q (inr (ground arith)))
        | inr ahead ↦
            let n = k.aqueue a - index in
            (suc n, omega arith, ground arith, turns n k a v q (inl (ground arith)))
      ]
