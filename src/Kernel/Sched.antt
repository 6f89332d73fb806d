-- ===== src/Kernel/Sched.antt =====
-- kernel/src/sched.c, its second half: the round-robin choice of what runs next. The loop of
-- `sched_reschedule` takes fuel.
pub mod Resume
pub mod Turns
use cherios.Base.{
  ℕ, zero, suc, ◌+◌, ◌%◌, Bool, true, false, Res, ok, halt, panic, diverged, assertion, assert,
  ◌>>=◌, ◌>>◌, ◌==◌, if◌then◌else◌, two_32,
}
use cherios.Kernel.State.{
  Kernel, runnable, is_schedulable, is_runnable, set_sched_status, sched_status_of, max_activations,
}
use cherios.Kernel.Msg.{msg_pop}

module _ {Cap : Type 0} where
  unfoldable pub sched_schedule : Kernel Cap → ℕ → Res (Kernel Cap)
  sched_schedule k act = do
    assert (is_schedulable (sched_status_of k act))
    k' ← msg_pop k act
    ok (set_sched_status k' act runnable)

  unfoldable pub sched_picknext : Kernel Cap → ℕ × Kernel Cap
  sched_picknext k =
      if k.squeue_a_end == 0
      then (0, k)
      else (let idx = (k.squeue_a_idx + 1) % two_32 % k.squeue_a_end in
          (k.squeue_a idx, record k { squeue_a_idx = idx }))

  -- One round of `sched_reschedule`: the hint, or if it is 0 the next of the queue, is tried. The
  -- result tells whether the round ended in a switch. `sched_nothing_to_run` does not return.
  unfoldable pub sched_try : Kernel Cap → ℕ → Res (Bool × Kernel Cap)
  unfolding sched_picknext sched_schedule
  sched_try k hint = do
    let (act, k1) = if hint == 0 then sched_picknext k else (hint, k)
    if act == 0 then halt panic else do
      k2 ← if is_schedulable (sched_status_of k1 act) then sched_schedule k1 act else ok k1
      if is_runnable (sched_status_of k2 act)
          then ok (true, record k2 { curr_act = act; framep = act })
          else ok (false, k2)

  unfoldable pub sched_rounds : ℕ → Kernel Cap → ℕ → Res (Kernel Cap)
  unfolding sched_try
  sched_rounds zero k hint = halt diverged
  sched_rounds (suc fuel) k hint = do
    (done, k') ← sched_try k hint
    elim done [ true ↦ ok k' | false ↦ sched_rounds fuel k' 0 ]

  unfoldable pub sched_reschedule : Kernel Cap → ℕ → Res (Kernel Cap)
  unfolding sched_rounds
  sched_reschedule k hint = sched_rounds (max_activations + 2) k hint
