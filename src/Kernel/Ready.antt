-- ===== src/Kernel/Ready.antt =====
-- kernel/src/sched.c, its first half: the ready queue `squeue_a`, in which `aqueue` gives the slot
-- of each activation, and the operations that enter an activation into it and take it out.
pub mod Inv
use cherios.Base.{
  ℕ, ◌+◌, ◌-◌, ◌%◌, ◌≡◌, Bool, true, false, ◌||◌, update, Res, ok, halt, assertion, assert, ◌>>=◌,
  ◌>>◌, ◌==◌, if◌then◌else◌, two_32,
}
use cherios.Kernel.State.{
  Kernel, Act, SchedStatus, waiting, is_waiting, is_schedulable, is_runnable, is_sync_block, dead,
  set_sched_status, set_status,
}

module _ {Cap : Type 0} where
  -- QADD
  unfoldable pub qadd : Kernel Cap → ℕ → Kernel Cap
  qadd k act = record k {
    aqueue = update k.aqueue act k.squeue_a_end;
    squeue_a = update k.squeue_a k.squeue_a_end act;
    squeue_a_end = (k.squeue_a_end + 1) % two_32;
  }

  -- `squeue_a_end - 1`, in `u32`
  abbrev pub last_slot : Kernel Cap → ℕ
  last_slot k = (k.squeue_a_end + two_32 - 1) % two_32

  -- QDEL
  unfoldable pub qdel : Kernel Cap → ℕ → Res (Kernel Cap)
  qdel k act = do
    assert (k.squeue_a (k.aqueue act) == act)
    ok (record k {
      squeue_a_end = last_slot k;
      squeue_a = update k.squeue_a (k.aqueue act) (k.squeue_a (last_slot k));
      aqueue = update k.aqueue (k.squeue_a (last_slot k)) (k.aqueue act);
    })

  unfoldable pub sched_create : Kernel Cap → ℕ → Kernel Cap
  sched_create k act = set_sched_status k act waiting

  unfoldable pub sched_delete : Kernel Cap → ℕ → Res (Kernel Cap)
  unfolding qdel
  sched_delete k act = do
    k' ← if k.squeue_a (k.aqueue act) == act then qdel k act else ok k
    ok (set_status k' act dead)

  unfoldable pub sched_d2a : Kernel Cap → ℕ → SchedStatus → Res (Kernel Cap)
  unfolding qadd
  sched_d2a k act status = do
    assert (is_runnable status || is_schedulable status)
    ok (set_sched_status (qadd k act) act status)

  unfoldable pub sched_a2d : Kernel Cap → ℕ → SchedStatus → Res (Kernel Cap)
  unfolding qdel
  sched_a2d k act status = do
    k' ← qdel k act
    assert (is_sync_block status || is_waiting status)
    ok (set_sched_status k' act status)
