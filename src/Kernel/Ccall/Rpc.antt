-- ===== src/Kernel/Ccall/Rpc.antt =====
-- A synchronous call of kernel/src/ccall.c, from the caller to the callee.
use cherios.Base.{
  ℕ, ◌+◌, ◌%◌, ◌<◌, ◌≡◌, ◌≢◌, refl, ap, ◌∙◌, true, false, some, bit_and, update_self, Res, ok, ◌==◌,
  two_32, arith,
}
use cherios.Cheri.{Cheri}
use cherios.Kernel.State.{
  Kernel, Msg, Queue, is_alive, is_waiting, is_schedulable, is_sync_block, sync_block,
  sched_status_of, current,
}
use cherios.Kernel.Msg.{message, deliver, put, msg_push}
use cherios.Kernel.Msg.Ring.{mask, count}
use cherios.Kernel.Msg.Fifo.{pushed, msg_push-eq, pushed-IsSound}
use cherios.Kernel.Ready.{sched_a2d}
use cherios.Kernel.Ready.Inv.{Queued, left, a2d-eq}
use cherios.Kernel.Inv.{IsSound, IsRunning}
use cherios.Kernel.Sched.{sched_reschedule}
use cherios.Kernel.Sched.Resume.{switched, sched_reschedule-Queued, switched-IsRunning}
use cherios.Kernel.Env.{otype_sync, kernel_seal}
use cherios.Kernel.Act.Wait.{left-IsSound}
use cherios.Kernel.Ccall.{
  sync_call, perm_store, token_offset, token_for, get_sync_token, after_push, ccall_to,
}
use cherios.Kernel.Ccall.Deliver.{tokened, tokened-IsSound}

module _ (c : Cheri) (k : Kernel c.Cap) (cb : ℕ) (cs bare t : c.Cap) where
  open c use {Cap}

  abbrev pub callee : ℕ
  callee = (k.acts cb).aid

  abbrev pub number : ℕ
  number = (k.unique + 1) % two_32

  -- A call that can be delivered at once: the identifier may be written, the callee is alive and
  -- waits for a message, and no capability instruction traps while the token is made.
  pub record IsOpen : Type 0 where
    pub running : IsRunning k
    pub writable : (bit_and (c.get_perm cs) perm_store == 0) ≡ false
    pub alive : is_alive (k.acts cb).status ≡ true
    pub waits : is_waiting (sched_status_of k callee) ≡ true
    pub positive : 0 < callee
    pub known : callee < k.next_act
    pub root : c.set_bounds (c.and_perm c.get_default 0) 0 ≡ some bare
    pub sealed :
        c.seal
          (c.set_offset bare (token_offset k.curr_act number))
          (c.set_offset c.get_default otype_sync)
        ≡ some t

  -- The kernel after each step of the call.
  abbrev noted : Kernel Cap
  noted = tokened c k k.curr_act

  abbrev sent : Kernel Cap
  sent = pushed noted callee (message (k.frames k.curr_act) cs t)

  abbrev asleep : Kernel Cap
  asleep = left sent k.curr_act sync_block

  abbrev pub called : Kernel Cap
  called = switched asleep callee

  -- The callee runs, with the caller's arguments, the identifier and the token in its registers;
  -- the caller is blocked, and its registers stay as they are.
  pub record IsCall (k' : Kernel Cap) : Type 0 where
    pub running : IsRunning k'
    pub switched_to : k'.curr_act ≡ callee
    pub a0 : (current k').a0 ≡ (current k).a0
    pub a1 : (current k').a1 ≡ (current k).a1
    pub a2 : (current k').a2 ≡ (current k).a2
    pub v0 : (current k').v0 ≡ (current k).v0
    pub c3 : (current k').c3 ≡ (current k).c3
    pub c4 : (current k').c4 ≡ (current k).c4
    pub c5 : (current k').c5 ≡ (current k).c5
    pub idc : (current k').idc ≡ cs
    pub c1 : (current k').c1 ≡ t
    pub pc : (current k').pc ≡ (k.frames callee).pc
    pub blocked : is_sync_block (sched_status_of k' k.curr_act) ≡ true
    pub expected : (k'.acts k.curr_act).expected_reply ≡ number
    pub kept : k'.frames k.curr_act ≡ k.frames k.curr_act
    pub next : k'.next_act ≡ k.next_act

  token-eq : IsOpen → token_for c k sync_call ≡ ok (t, noted)
  unfolding token_for get_sync_token kernel_seal
  token-eq o = rw (o.root, o.sealed) refl

  other : IsOpen → callee ≢ k.curr_act
  other o e = ground (arith, o.waits, o.running.runs, e)

  room : IsOpen → count (k.queues callee) ≢ 15
  room o e = omega (arith, e, o.running.sound.mail.quiet callee o.waits)

  sent-IsSound : IsOpen → IsSound sent
  sent-IsSound o =
      pushed-IsSound noted callee _ (tokened-IsSound c k k.curr_act o.running.sound) o.positive
        o.known (room o)

  self-Queued : IsOpen → Queued sent k.curr_act
  self-Queued o = ground (arith, other o, o.running.runs)

  asleep-IsSound : IsOpen → IsSound asleep
  asleep-IsSound o =
      left-IsSound sent k.curr_act sync_block (sent-IsSound o) (self-Queued o) refl (λ w. cc)

  asleep-Queued : IsOpen → Queued asleep callee
  asleep-Queued o = ground (arith, other o, o.waits)

  ccall_to-switch :
      (r : Res (Kernel Cap))
      → IsOpen
      → sched_reschedule asleep callee ≡ r
      → ccall_to c k sync_call cb cs ≡ r
  unfolding ccall_to after_push
  ccall_to-switch r o switch =
      let same : (noted.acts cb).aid ≡ callee = ground arith in
      let push : msg_push noted callee k.curr_act cs t ≡ ok (0, sent) =
        msg_push-eq noted callee k.curr_act cs t (tokened-IsSound c k k.curr_act o.running.sound)
          o.known (room o) in
      let block : sched_a2d sent k.curr_act sync_block ≡ ok asleep =
        a2d-eq sent k.curr_act sync_block (sent-IsSound o).ready (self-Queued o) refl in
      let me : sent.curr_act ≡ k.curr_act = ground arith in
      let it : (sent.acts cb).aid ≡ callee = ground arith in
      rw (o.writable, o.alive, token-eq o, same, push, me, it, block) switch

  pub ccall_to-eq : IsOpen → ccall_to c k sync_call cb cs ≡ ok called
  ccall_to-eq o =
      ccall_to-switch (ok called) o
        (sched_reschedule-Queued asleep callee (asleep-IsSound o) (asleep-Queued o))

  first-put :
      (q : Queue Cap) (m : Msg Cap) → q.start ≡ q.end → (put q mask m).msg (put q mask m).start ≡ m
  unfolding put
  first-put q m e = ground arith

  arguments-eq : IsOpen → current called ≡ deliver (k.frames callee) (message (current k) cs t)
  arguments-eq o =
      let m = message (k.frames k.curr_act) cs t in
      let ready : is_schedulable (sched_status_of asleep callee) ≡ true =
        ground (arith, other o, o.waits) in
      let queue : asleep.queues callee ≡ put (k.queues callee) mask m = ground arith in
      let first : (asleep.queues callee).msg (asleep.queues callee).start ≡ m =
        rw queue (first-put (k.queues callee) m (o.running.sound.mail.quiet callee o.waits)) in
      let here : current called
          ≡ deliver (asleep.frames callee)
              ((asleep.queues callee).msg (asleep.queues callee).start) =
        rw ready (update_self asleep.frames callee _) in
      let frames : asleep.frames callee ≡ k.frames callee = ground arith in
      let mine : k.framep ≡ k.curr_act = o.running.framed in here ∙ rw (first, frames, mine) refl

  pub ccall_to-IsCall : IsOpen → IsCall called
  unfolding deliver message
  ccall_to-IsCall o = record {
    running = switched-IsRunning asleep callee (asleep-IsSound o) (asleep-Queued o);
    switched_to = refl;
    a0 = ap (λ f. f.a0) (arguments-eq o);
    a1 = ap (λ f. f.a1) (arguments-eq o);
    a2 = ap (λ f. f.a2) (arguments-eq o);
    v0 = ap (λ f. f.v0) (arguments-eq o);
    c3 = ap (λ f. f.c3) (arguments-eq o);
    c4 = ap (λ f. f.c4) (arguments-eq o);
    c5 = ap (λ f. f.c5) (arguments-eq o);
    idc = ap (λ f. f.idc) (arguments-eq o);
    c1 = ap (λ f. f.c1) (arguments-eq o);
    pc = ap (λ f. f.pc) (arguments-eq o);
    blocked = ground (arith, other o);
    expected = ground (arith, other o);
    kept = ground (arith, other o);
    next = ground (arith, other o);
  }
