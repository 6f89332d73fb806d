-- ===== src/Kernel/State.antt =====
-- The kernel's state: kernel/include/activations.h, include/queue.h, and the static variables of
-- kernel/src/msg.c, sched.c, act.c, ccall.c, interrupts.c and timer.c. `Cap` is the type of
-- capabilities. Of a register frame the registers stand here that the kernel's C code reads or
-- writes.
use cherios.Base.{ℕ, ◌^◌, List, update, Bool, true, false}

-- MAX_ACTIVATIONS, MAX_MSG and ACT_NAME_MAX_LEN
abbrev pub max_activations : ℕ
max_activations = 32

abbrev pub max_msg : ℕ
max_msg = 2 ^ 4

abbrev pub act_name_max_len : ℕ
act_name_max_len = 16

-- `status_e`
pub data Status : Type 0 where
  alive revoked dead : Status

-- `sched_status_e`
pub data SchedStatus : Type 0 where
  waiting schedulable runnable sync_block terminated : SchedStatus

-- `s == sched_schedulable` and the like
abbrev pub is_waiting : SchedStatus → Bool
is_waiting waiting = true
is_waiting _ = false

abbrev pub is_schedulable : SchedStatus → Bool
is_schedulable schedulable = true
is_schedulable _ = false

abbrev pub is_runnable : SchedStatus → Bool
is_runnable runnable = true
is_runnable _ = false

abbrev pub is_sync_block : SchedStatus → Bool
is_sync_block sync_block = true
is_sync_block _ = false

abbrev pub is_alive : Status → Bool
is_alive alive = true
is_alive _ = false

abbrev pub is_dead : Status → Bool
is_dead dead = true
is_dead _ = false

-- `act_t`; `expected_reply` is its `sync_token`.
pub record Act (Cap : Type 0) : Type 0 where
  pub aid : ℕ
  pub status : Status
  pub queue_mask : ℕ
  pub sched_status : SchedStatus
  pub expected_reply : ℕ
  pub act_reference : Cap
  pub act_default_id : Cap
  pub name : List ℕ

-- `msg_t`
pub record Msg (Cap : Type 0) : Type 0 where
  pub a0 : ℕ
  pub a1 : ℕ
  pub a2 : ℕ
  pub c3 : Cap
  pub c4 : Cap
  pub c5 : Cap
  pub v0 : ℕ
  pub idc : Cap
  pub c1 : Cap

-- `queue_t`
pub record Queue (Cap : Type 0) : Type 0 where
  pub start : ℕ
  pub end : ℕ
  pub len : ℕ
  pub msg : ℕ → Msg Cap

-- `reg_frame_t`
pub record Frame (Cap : Type 0) : Type 0 where
  pub a0 : ℕ
  pub a1 : ℕ
  pub a2 : ℕ
  pub v0 : ℕ
  pub v1 : ℕ
  pub pc : ℕ
  pub c1 : Cap
  pub c2 : Cap
  pub c3 : Cap
  pub c4 : Cap
  pub c5 : Cap
  pub idc : Cap
  pub pcc : Cap

-- `kernel_exception_framep_ptr` is `frames` at `framep`. `im` is the interrupt mask of the status
-- register, a number of eight bits; `int_child` and `kernel_last_timer` are those of interrupts.c
-- and timer.c, `unique` is the counter of `get_sync_token`, `compare` the timer's
-- register, `entered` the nesting level of `kernel_exception`.
pub record Kernel (Cap : Type 0) : Type 0 where
  pub acts : ℕ → Act Cap
  pub frames : ℕ → Frame Cap
  pub framep : ℕ
  pub queues : ℕ → Queue Cap
  pub aqueue : ℕ → ℕ
  pub squeue_a : ℕ → ℕ
  pub squeue_a_idx : ℕ
  pub squeue_a_end : ℕ
  pub curr_act : ℕ
  pub next_act : ℕ
  pub act_default_id : Cap
  pub unique : ℕ
  pub int_child : ℕ → ℕ
  pub im : ℕ
  pub last_timer : ℕ
  pub compare : ℕ
  pub entered : ℕ

module _ {Cap : Type 0} where
  -- `kernel_acts[act].sched_status = status`
  abbrev pub set_sched_status : Kernel Cap → ℕ → SchedStatus → Kernel Cap
  set_sched_status k act status = record k {
    acts = update k.acts act (record (k.acts act) { sched_status = status });
  }

  -- `kernel_acts[act].status = status`
  abbrev pub set_status : Kernel Cap → ℕ → Status → Kernel Cap
  set_status k act status = record k {
    acts = update k.acts act (record (k.acts act) { status = status });
  }

  abbrev pub set_frame : Kernel Cap → ℕ → Frame Cap → Kernel Cap
  set_frame k act frame = record k { frames = update k.frames act frame }

  -- `kernel_exception_framep_ptr`, read and written
  abbrev pub current : Kernel Cap → Frame Cap
  current k = k.frames k.framep

  abbrev pub set_current : Kernel Cap → Frame Cap → Kernel Cap
  set_current k frame = set_frame k k.framep frame

  abbrev pub sched_status_of : Kernel Cap → ℕ → SchedStatus
  sched_status_of k act = (k.acts act).sched_status
