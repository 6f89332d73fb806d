-- ===== src/Kernel/Msg.antt =====
-- kernel/src/msg.c: a ring of messages for each activation, filled from the sender's register
-- frame and emptied into the receiver's. An `int` result stands in its 64-bit register: -1 is
-- `minus_one`.
pub mod Ring
pub mod Fifo
pub mod Pop
use cherios.Base.{
  ℕ, ◌+◌, ◌-◌, ◌%◌, bit_and, Bool, true, false, update, Res, ok, halt, assertion, assert, ◌>>=◌,
  ◌>>◌, ◌==◌, ltb, not, if◌then◌else◌, two_64,
}
use cherios.Kernel.State.{
  Kernel, Act, Queue, Msg, Frame, schedulable, is_schedulable, is_waiting, max_msg, set_frame,
  sched_status_of,
}
use cherios.Kernel.Ready.{sched_d2a}

abbrev pub minus_one : ℕ
minus_one = two_64 - 1

unfoldable pub safe : ℕ → ℕ → ℕ
safe n qmask = bit_and n qmask

-- `safe(n + 1, qmask)`, the sum in `size_t`
abbrev pub step_slot : ℕ → ℕ → ℕ
step_slot n qmask = safe ((n + 1) % two_64) qmask

module _ {Cap : Type 0} where
  unfoldable pub full : Queue Cap → ℕ → Res Bool
  full q qmask = do assert (ltb 0 qmask); ok (step_slot q.end qmask == q.start)

  unfoldable pub empty : Queue Cap → Bool
  empty q = q.start == q.end

  -- The message that `msg_push` writes.
  unfoldable pub message : Frame Cap → Cap → Cap → Msg Cap
  message f identifier sync_token = record {
    a0 = f.a0;
    a1 = f.a1;
    a2 = f.a2;
    c3 = f.c3;
    c4 = f.c4;
    c5 = f.c5;
    v0 = f.v0;
    idc = identifier;
    c1 = sync_token;
  }

  -- The frame that `msg_pop` leaves: `pc`, `v1`, `c2` and `pcc` stay.
  unfoldable pub deliver : Frame Cap → Msg Cap → Frame Cap
  deliver f m = record f {
    a0 = m.a0;
    a1 = m.a1;
    a2 = m.a2;
    c3 = m.c3;
    c4 = m.c4;
    c5 = m.c5;
    v0 = m.v0;
    idc = m.idc;
    c1 = m.c1;
  }

  -- The queue with a message written at `end` and `end` moved on.
  unfoldable pub put : Queue Cap → ℕ → Msg Cap → Queue Cap
  put q qmask m = record q { msg = update q.msg q.end m; end = step_slot q.end qmask }

  unfoldable pub wake : Kernel Cap → ℕ → Res (Kernel Cap)
  wake k dest = if is_waiting (sched_status_of k dest) then sched_d2a k dest schedulable else ok k

  unfoldable pub msg_push : Kernel Cap → ℕ → ℕ → Cap → Cap → Res (ℕ × Kernel Cap)
  unfolding full put message wake
  msg_push k dest src identifier sync_token = do
    let queue = k.queues dest
    let qmask = (k.acts dest).queue_mask
    assert (ltb 0 qmask)
    is_full ← full queue qmask
    if is_full then ok (minus_one, k) else do
      let m = message (k.frames src) identifier sync_token
      k' ← wake (record k { queues = update k.queues dest (put queue qmask m) }) dest
      ok (0, k')

  unfoldable pub msg_pop : Kernel Cap → ℕ → Res (Kernel Cap)
  unfolding empty deliver
  msg_pop k act = do
    let queue = k.queues act
    let qmask = (k.acts act).queue_mask
    assert (is_schedulable (sched_status_of k act))
    assert (not (empty queue))
    let frame = deliver (k.frames act) (queue.msg queue.start)
    let k' = set_frame k act frame
    ok (record k' {
      queues = update k.queues act (record queue { start = step_slot queue.start qmask });
    })

  unfoldable pub msg_queue_empty : Kernel Cap → ℕ → Bool
  unfolding empty
  msg_queue_empty k act = empty (k.queues act)

  unfoldable pub msg_queue_init : Kernel Cap → ℕ → Kernel Cap
  msg_queue_init k act = record k {
    queues = update k.queues act (record (k.queues act) { start = 0; end = 0; len = max_msg });
  }
