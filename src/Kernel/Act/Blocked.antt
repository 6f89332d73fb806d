-- ===== src/Kernel/Act/Blocked.antt =====
-- A `CReturn` with the null token, and what the wait that it is leaves of an activation blocked in a
-- call.
use cherios.Base.{
  ℕ, ◌≡◌, ◌≢◌, ◌⊎◌, inl, inr, ◌∙◌, true, false, Bool-cases, ok, halt, panic, ◌==◌, arith,
}
use cherios.Kernel.State.{Kernel, is_runnable, is_sync_block, sched_status_of}
use cherios.Kernel.Ready.Inv.{Queued, is_queued}
use cherios.Kernel.Inv.{IsSound, IsRunning}
use cherios.Kernel.Sched.{sched_reschedule}
use cherios.Kernel.Sched.Resume.{
  none-Queued, switched, advanced, picked, picked-Queued, advanced-IsSound, switched-IsRunning,
  sched_reschedule-Queued, sched_reschedule-next, sched_reschedule-none,
}
use cherios.Kernel.Act.{act_wait}
use cherios.Kernel.Act.Wait.{parked, parked-IsSound, act_wait-eq}

module _ {Cap : Type 0} where
  -- The kernel runs, and activation `a` has its entry of before.
  pub record Holds (k : Kernel Cap) (a : ℕ) (k' : Kernel Cap) : Type 0 where
    pub running : IsRunning k'
    pub entry : k'.acts a ≡ k.acts a
    pub next : k'.next_act ≡ k.next_act

  -- No other activation is queued.
  abbrev pub Alone : Kernel Cap → ℕ → Type 0
  Alone k me = (b : ℕ) → b ≢ me → is_queued (sched_status_of k b) ≡ false

  switched-Holds :
      (k : Kernel Cap) (a b : ℕ)
      → IsSound k
      → Queued k b
      → is_sync_block (sched_status_of k a) ≡ true
      → Holds k a (switched k b)
  switched-Holds k a b v q blocked =
      let other : a ≢ b = ground (arith, q, blocked) in
      record {
        running = switched-IsRunning k b v q;
        entry = ground (arith, other);
        next = ground arith;
      }

  sched_reschedule-Holds :
      (k : Kernel Cap) (a hint : ℕ)
      → IsSound k
      → is_sync_block (sched_status_of k a) ≡ true
      → ((sched_reschedule k hint ≡ halt panic)
          × ((b : ℕ) → is_queued (sched_status_of k b) ≡ false))
        ⊎ ((k' : Kernel Cap) × (sched_reschedule k hint ≡ ok k') × Holds k a k')
  sched_reschedule-Holds k a hint v blocked =
      elim (Bool-cases (is_queued (sched_status_of k hint))) [
        | inl q ↦ inr (
          switched k hint,
          sched_reschedule-Queued k hint v q,
          switched-Holds k a hint v q blocked,
        )
        | inr out ↦ elim (Bool-cases (k.squeue_a_end == 0)) [
          | inl e ↦
              let empty : k.squeue_a_end ≡ 0 = ground arith in
              inl (sched_reschedule-none k hint out empty, none-Queued k v empty)
          | inr ne ↦
              let some_listed : k.squeue_a_end ≢ 0 = ground arith in
              let held =
                switched-Holds (advanced k) a (picked k) (advanced-IsSound k v)
                  (picked-Queued k v some_listed) blocked in
              inr (
                switched (advanced k) (picked k),
                sched_reschedule-next k hint v out some_listed,
                record { running = held.running; entry = held.entry; next = held.next },
              )
        ]
      ]

  pub act_wait-Holds :
      (k : Kernel Cap) (me a hint : ℕ)
      → IsSound k
      → is_runnable (sched_status_of k me) ≡ true
      → is_sync_block (sched_status_of k a) ≡ true
      → ((act_wait k me hint ≡ halt panic) × Alone k me)
        ⊎ ((k' : Kernel Cap) × (act_wait k me hint ≡ ok k') × Holds k a k')
  act_wait-Holds k me a hint v runs blocked =
      let other : a ≢ me = ground (arith, runs, blocked) in
      let entry : (parked k me).acts a ≡ k.acts a = ground (arith, other) in
      let next : (parked k me).next_act ≡ k.next_act = ground arith in
      let waits : is_sync_block (sched_status_of (parked k me) a) ≡ true =
        ground (arith, other, blocked) in
      rw (act_wait-eq k me hint v runs)
        (elim (sched_reschedule-Holds (parked k me) a hint (parked-IsSound k me v (ground arith))
          waits) [
            | inl (stops, none) ↦ inl (stops, λ b ne. ground (arith, none b, ne))
            | inr (k', done, held) ↦ inr (
              k',
              done,
              record {
                running = held.running;
                entry = held.entry ∙ entry;
                next = held.next ∙ next;
              },
            )
          ])
