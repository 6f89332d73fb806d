-- ===== src/Kernel/Sched/Resume.antt =====
-- `sched_reschedule` of kernel/src/sched.c in a sound kernel.
use cherios.Base.{
  ℕ, zero, suc, ◌+◌, ◌%◌, ◌≡◌, refl, ◌≢◌, ◌⊎◌, inl, inr, true, false, Bool-cases, ok, halt, panic,
  ◌==◌, if◌then◌else◌, two_32, arith, ◌∙◌,
}
use cherios.Kernel.State.{Kernel, is_schedulable, is_runnable, sched_status_of}
use cherios.Kernel.Msg.Pop.{msg_pop-eq, dispatched, dispatched-IsSound}
use cherios.Kernel.Ready.Inv.{Queued, is_queued}
use cherios.Kernel.Inv.{IsSound, IsRunning, Resumes, agree, Agree-IsSound}
use cherios.Kernel.Sched.{sched_schedule, sched_try, sched_rounds, sched_reschedule}

module _ {Cap : Type 0} where
  -- The kernel after a switch to the queued activation `a`.
  abbrev pub switched : Kernel Cap → ℕ → Kernel Cap
  switched k a =
      let k' = if is_schedulable (sched_status_of k a) then dispatched k a else k in
      record k' { curr_act = a; framep = a }

  sched_schedule-eq :
      (k : Kernel Cap) (a : ℕ)
      → IsSound k
      → is_schedulable (sched_status_of k a) ≡ true
      → sched_schedule k a ≡ ok (dispatched k a)
  unfolding sched_schedule
  sched_schedule-eq k a v s =
      ground (arith, msg_pop-eq k a v.mail s (v.ready.known a (ground arith)).1)

  -- Round by round: a queued hint is switched to at once.
  sched_try-Queued :
      (k : Kernel Cap) (a : ℕ) → IsSound k → Queued k a → sched_try k a ≡ ok (true, switched k a)
  unfolding sched_try
  sched_try-Queued k a v q = ground (arith, v.ready.known a q, sched_schedule-eq k a v)

  -- A hint that is not queued changes nothing.
  sched_try-idle :
      (k : Kernel Cap) (a : ℕ)
      → a ≢ 0
      → is_queued (sched_status_of k a) ≡ false
      → sched_try k a ≡ ok (false, k)
  unfolding sched_try
  sched_try-idle k a ne out = ground arith

  -- The slot that `sched_picknext` moves to, the activation in it, and the kernel afterwards.
  abbrev pub next_slot : Kernel Cap → ℕ
  next_slot k = (k.squeue_a_idx + 1) % two_32 % k.squeue_a_end

  abbrev pub advanced : Kernel Cap → Kernel Cap
  advanced k = record k { squeue_a_idx = next_slot k }

  abbrev pub picked : Kernel Cap → ℕ
  picked k = k.squeue_a (next_slot k)

  pub picked-Queued : (k : Kernel Cap) → IsSound k → k.squeue_a_end ≢ 0 → Queued k (picked k)
  picked-Queued k v ne = v.ready.listed (next_slot k) (omega arith)

  pub advanced-IsSound : (k : Kernel Cap) → IsSound k → IsSound (advanced k)
  advanced-IsSound k v = Agree-IsSound (agree k) v

  sched_try-none : (k : Kernel Cap) → k.squeue_a_end ≡ 0 → sched_try k 0 ≡ halt panic
  unfolding sched_try
  sched_try-none k e = ground arith

  sched_try-next :
      (k : Kernel Cap)
      → k.squeue_a_end ≢ 0
      → picked k ≢ 0
      → sched_try k 0 ≡ sched_try (advanced k) (picked k)
  unfolding sched_try
  sched_try-next k ne pos = ground arith

  pub sched_rounds-next :
      (fuel : ℕ) (k : Kernel Cap)
      → IsSound k
      → k.squeue_a_end ≢ 0
      → sched_rounds (suc fuel) k 0 ≡ ok (switched (advanced k) (picked k))
  unfolding sched_rounds
  sched_rounds-next fuel k v ne =
      let q = picked-Queued k v ne in
      let step : sched_try k 0 ≡ ok (true, switched (advanced k) (picked k)) =
        sched_try-next k ne (omega (arith, (v.ready.known _ q).0))
        ∙ sched_try-Queued (advanced k) (picked k) (advanced-IsSound k v) q in
      rw (step, sched_rounds) refl

  sched_rounds-none :
      (fuel : ℕ) (k : Kernel Cap) → k.squeue_a_end ≡ 0 → sched_rounds (suc fuel) k 0 ≡ halt panic
  unfolding sched_rounds
  sched_rounds-none fuel k e = rw (sched_try-none k e, sched_rounds) refl

  -- Two rounds are enough: a hint that cannot run costs one.
  pub sched_reschedule-Queued :
      (k : Kernel Cap) (a : ℕ) → IsSound k → Queued k a → sched_reschedule k a ≡ ok (switched k a)
  unfolding sched_reschedule
  sched_reschedule-Queued k a v q = rw (sched_try-Queued k a v q, sched_rounds) refl

  -- In a sound kernel with a hint that is not queued, and some entry in the ready queue,
  -- `sched_reschedule` moves its index on by one slot, modulo the queue's length, and switches to
  -- the activation there.
  pub sched_reschedule-next :
      (k : Kernel Cap) (a : ℕ)
      → IsSound k
      → is_queued (sched_status_of k a) ≡ false
      → k.squeue_a_end ≢ 0
      → sched_reschedule k a ≡ ok (switched (advanced k) (picked k))
  unfolding sched_reschedule sched_rounds
  sched_reschedule-next k zero v out ne = sched_rounds-next 33 k v ne
  sched_reschedule-next k (suc a) v out ne =
      rw (sched_try-idle k (suc a) (omega arith) out, sched_rounds) (sched_rounds-next 32 k v ne)

  pub sched_reschedule-none :
      (k : Kernel Cap) (a : ℕ)
      → is_queued (sched_status_of k a) ≡ false
      → k.squeue_a_end ≡ 0
      → sched_reschedule k a ≡ halt panic
  unfolding sched_reschedule sched_rounds
  sched_reschedule-none k zero out e = sched_rounds-none 33 k e
  sched_reschedule-none k (suc a) out e =
      rw (sched_try-idle k (suc a) (omega arith) out, sched_rounds) (sched_rounds-none 32 k e)

  focused-IsRunning :
      (k : Kernel Cap) (a : ℕ)
      → IsSound k
      → is_runnable (sched_status_of k a) ≡ true
      → IsRunning (record k { curr_act = a; framep = a })
  focused-IsRunning k a v r = record { sound = Agree-IsSound (agree k) v; framed = refl; runs = r }

  pub switched-IsRunning :
      (k : Kernel Cap) (a : ℕ) → IsSound k → Queued k a → IsRunning (switched k a)
  switched-IsRunning k a v q = elim (Bool-cases (is_schedulable (sched_status_of k a))) [
    | inl s ↦
        rw s (focused-IsRunning (dispatched k a) a (dispatched-IsSound k a v s) (ground arith))
    | inr s ↦ rw s (focused-IsRunning k a v (ground arith))
  ]

  pub none-Queued :
      (k : Kernel Cap)
      → IsSound k
      → k.squeue_a_end ≡ 0
      → (b : ℕ) → is_queued (sched_status_of k b) ≡ false
  none-Queued k v e b = elim (Bool-cases (is_queued (sched_status_of k b))) [
    | inl q ↦ absurd (omega (arith, v.ready.present b q))
    | inr out ↦ out
  ]

  -- In a sound kernel `sched_reschedule` returns with a runnable activation current and the kernel
  -- sound, or panics; it does not loop and no assertion fails in it, whatever the hint.
  pub sched_reschedule-Resumes :
      (k : Kernel Cap) (a : ℕ) → IsSound k → Resumes (sched_reschedule k a)
  sched_reschedule-Resumes k a v = elim (Bool-cases (is_queued (sched_status_of k a))) [
    | inl q ↦ rw (sched_reschedule-Queued k a v q) (switched-IsRunning k a v q)
    | inr out ↦ elim (Bool-cases (k.squeue_a_end == 0)) [
      | inl e ↦ rw (sched_reschedule-none k a out (ground arith)) tt
      | inr ne ↦ rw (sched_reschedule-next k a v out (ground arith)) (
          switched-IsRunning (advanced k) (picked k) (advanced-IsSound k v)
            (picked-Queued k v (ground arith)))
    ]
  ]

  -- In a sound kernel, whatever the hint, `sched_reschedule` panics exactly if no activation is
  -- runnable or schedulable, and otherwise returns with a runnable activation current and the kernel
  -- sound; it does not loop and no assertion fails in it.
  pub sched_reschedule-decides :
      (k : Kernel Cap) (a : ℕ)
      → IsSound k
      → (((b : ℕ) → is_queued (sched_status_of k b) ≡ false) × (sched_reschedule k a ≡ halt panic))
        ⊎ ((k' : Kernel Cap) × (b : ℕ) × (is_queued (sched_status_of k b) ≡ true)
            × (sched_reschedule k a ≡ ok k')
            × (k'.curr_act ≡ b)
            × IsRunning k')
  sched_reschedule-decides k a v = elim (Bool-cases (is_queued (sched_status_of k a))) [
    | inl q ↦
        inr (switched k a, a, q, sched_reschedule-Queued k a v q, refl, switched-IsRunning k a v q)
    | inr out ↦ elim (Bool-cases (k.squeue_a_end == 0)) [
      | inl e ↦
          let empty : k.squeue_a_end ≡ 0 = ground arith in
          inl (none-Queued k v empty, sched_reschedule-none k a out empty)
      | inr ne ↦
          let some_listed : k.squeue_a_end ≢ 0 = ground arith in
          let q = picked-Queued k v some_listed in
          inr (
            switched (advanced k) (picked k),
            picked k,
            q,
            sched_reschedule-next k a v out some_listed,
            refl,
            switched-IsRunning (advanced k) (picked k) (advanced-IsSound k v) q,
          )
    ]
  ]
