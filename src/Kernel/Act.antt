-- ===== src/Kernel/Act.antt =====
-- kernel/src/act.c: activations, their registration, life and references.
pub mod Wait
pub mod Blocked
pub mod Life
pub mod Terminate
pub mod Start
use cherios.Base.{
  ℕ, zero, suc, ◌+◌, ◌-◌, ◌%◌, ◌^◌, min, Bool, true, false, List, [], ◌∷◌, Option, some, update,
  Res, ok, halt, panic, overrun, assert, or_trap, ◌>>=◌, ◌>>◌, ◌==◌, leb, if◌then◌else◌, two_32,
  two_64,
}
use cherios.Cheri.{Cheri}
use cherios.Kernel.State.{
  Kernel, Act, Status, alive, revoked, dead, SchedStatus, waiting, schedulable, terminated,
  runnable, Frame, is_dead, is_runnable, set_status, set_sched_status, set_frame, sched_status_of,
  max_activations, max_msg, act_name_max_len,
}
use cherios.Kernel.Ready.{sched_create, sched_delete, sched_a2d, sched_d2a}
use cherios.Kernel.Msg.{minus_one, msg_queue_init, msg_queue_empty}
use cherios.Kernel.Sched.{sched_reschedule}
use cherios.Kernel.Env.{
  Layout, Text, otype_ctrl, kernel_seal, kernel_unseal, kernel_cap_to_exec, vcap, act_index,
  act_address,
}

-- `status_e`, as the number that a system call returns
abbrev pub status_number : Status → ℕ
status_number alive = 0
status_number revoked = 1
status_number dead = 2

-- The first `n` characters from index `i` on.
abbrev pub read_chars : (ℕ → ℕ) → ℕ → ℕ → List ℕ
read_chars char zero i = []
read_chars char (suc n) i = char i ∷ read_chars char n (i + 1)

module _ {Cap : Type 0} where
  unfoldable pub act_wait : Kernel Cap → ℕ → ℕ → Res (Kernel Cap)
  act_wait k act next_hint = do
    assert (is_runnable (sched_status_of k act))
    k' ←
        if msg_queue_empty k act
        then sched_a2d k act waiting
        else ok (set_sched_status k act schedulable)
    sched_reschedule k' next_hint

  -- Activation 0, the kernel's own, cannot be scheduled.
  abbrev pub retired : Kernel Cap → Kernel Cap
  retired k = set_sched_status (set_status k 0 dead) 0 terminated

  -- The kernel with a default identifier and no activations.
  abbrev pub without_acts : Kernel Cap → Cap → Kernel Cap
  without_acts k default_id = record k { act_default_id = default_id; next_act = 0 }

  -- `act_revoke`, once the reference has been unsealed
  unfoldable pub revoke_aid : Kernel Cap → ℕ → Res (ℕ × Kernel Cap)
  revoke_aid k aid =
      if is_dead (k.acts aid).status then ok (minus_one, k) else ok (0, set_status k aid revoked)

  -- What `act_register` writes for the activation `kernel_next_act`.
  unfoldable pub install : Kernel Cap → Frame Cap → List ℕ → Cap → Cap → Kernel Cap
  unfolding msg_queue_init sched_create
  install k regs text reference default_id =
      let aid = k.next_act in
      let act = record (k.acts aid) {
        aid = aid;
        name = text;
        status = alive;
        queue_mask = max_msg - 1;
        act_reference = reference;
        act_default_id = default_id;
      } in
      let k1 = msg_queue_init (set_frame k aid regs) aid in
      let k2 = sched_create (record k1 { acts = update k1.acts aid act }) aid in
      record k2 { next_act = (aid + 1) % two_32 }

module _ (c : Cheri) where
  open c use {Cap}

  unfoldable pub kernel_skip_instr : Kernel Cap → ℕ → Kernel Cap
  kernel_skip_instr k act =
      let f = k.frames act in
      set_frame k act (record f { pc = (f.pc + 4) % two_64; pcc = c.inc_offset f.pcc 4 })

  -- The name that is stored. The length goes through an `int`, and `imin` keeps a negative one:
  -- the terminator is then written in front of the array.
  unfoldable pub act_name : Text c → Res (List ℕ)
  unfolding vcap
  act_name name =
      if vcap c name.cap 1 4
      then (let len = c.get_len name.cap % two_32 in
          if leb (2 ^ 31) len
          then halt overrun
          else ok (read_chars name.char (min len (act_name_max_len - 1)) 0))
      else ok []

  unfoldable pub act_seal_identifier : Kernel Cap → Cap → Res Cap
  unfolding kernel_seal
  act_seal_identifier k identifier =
      kernel_seal c (c.and_perm identifier 0b111100011111101) k.curr_act

  module _ (l : Layout) where
    unfoldable pub act_create_ref : ℕ → Res Cap
    unfolding kernel_seal kernel_cap_to_exec
    act_create_ref aid =
        kernel_seal c (kernel_cap_to_exec c (c.set_offset c.get_default (act_address c l aid))) aid

    unfoldable pub act_create_ctrl_ref : ℕ → Res Cap
    unfolding kernel_seal
    act_create_ctrl_ref aid =
        kernel_seal c (c.set_offset c.get_default (act_address c l aid)) otype_ctrl

    -- `frame` is what the frame pointer points to, `none` where reading it traps.
    unfoldable pub act_register : Kernel Cap → Option (Frame Cap) → Text c → Res (Cap × Kernel Cap)
    unfolding act_name act_create_ref act_create_ctrl_ref kernel_seal install
    act_register k frame name = do
      let aid = k.next_act
      if leb max_activations aid then halt panic else do
        text ← act_name name
        regs ← or_trap frame
        reference ← act_create_ref aid
        default_id ← kernel_seal c k.act_default_id aid
        ctrl ← act_create_ctrl_ref aid
        ok (ctrl, install k regs text reference default_id)

    -- `kernel_unseal(ctrl, 42001)->aid`
    unfoldable pub ctrl_aid : Kernel Cap → Cap → Res ℕ
    unfolding kernel_unseal act_index
    ctrl_aid k ctrl = do p ← kernel_unseal c ctrl otype_ctrl; i ← act_index c l p; ok (k.acts i).aid

    unfoldable pub act_revoke : Kernel Cap → Cap → Res (ℕ × Kernel Cap)
    unfolding revoke_aid
    act_revoke k ctrl = do aid ← ctrl_aid k ctrl; revoke_aid k aid

    unfoldable pub act_terminate : Kernel Cap → Cap → Res (ℕ × Kernel Cap)
    act_terminate k ctrl = do
      act ← ctrl_aid k ctrl
      k1 ← sched_delete (set_status k act dead) act
      let k2 = set_sched_status k1 act terminated
      if act == k.curr_act then ok (1, k2) else ok (0, k2)

    unfoldable pub act_get_ref : Kernel Cap → Cap → Res Cap
    act_get_ref k ctrl = do aid ← ctrl_aid k ctrl; ok (k.acts aid).act_reference

    unfoldable pub act_get_id : Kernel Cap → Cap → Res Cap
    act_get_id k ctrl = do aid ← ctrl_aid k ctrl; ok (k.acts aid).act_default_id

    unfoldable pub act_get_status : Kernel Cap → Cap → Res ℕ
    act_get_status k ctrl = do aid ← ctrl_aid k ctrl; ok (status_number (k.acts aid).status)

    -- The second half of `act_init`, from `kernel_acts[0].status` on.
    unfoldable pub act_init_user : Kernel Cap → Frame Cap → Text c → Res (Kernel Cap)
    act_init_user k init_frame init_name = do
      (ctrl, k2) ←
          act_register (record (retired k) { curr_act = 1; next_act = 1 }) (some init_frame)
            init_name
      sched_d2a (record k2 { framep = k2.curr_act }) k2.curr_act runnable

    -- `dummy_frame` is the frame of zeros, `kernel_name` and `init_name` are the two literals.
    unfoldable pub act_init :
        Kernel Cap → Frame Cap → Text c → Frame Cap → Text c → Res (Kernel Cap)
    unfolding act_init_user
    act_init k dummy_frame kernel_name init_frame init_name = do
      default_id ← or_trap (c.set_bounds c.get_default 0x1000)
      (ctrl, k1) ← act_register (without_acts k default_id) (some dummy_frame) kernel_name
      act_init_user k1 init_frame init_name
