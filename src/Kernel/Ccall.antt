-- ===== src/Kernel/Ccall.antt =====
-- kernel/src/ccall.c: messages between activations (CCall) and replies (CReturn).
pub mod Deliver
pub mod Call
pub mod Reply
pub mod Answer
pub mod Silent
pub mod Rpc
pub mod Roundtrip
pub mod Standing
use cherios.Base.{
  ℕ, zero, suc, ◌+◌, ◌-◌, ◌*◌, ◌/◌, ◌%◌, ◌^◌, bit_and, Bool, true, false, not, update, Option, none,
  some, Res, ok, halt, panic, assert, or_trap, ◌>>=◌, ◌>>◌, ◌==◌, if◌then◌else◌, two_32, two_64,
}
use cherios.Cheri.{Cheri}
use cherios.Kernel.State.{
  Kernel, Act, Frame, is_alive, is_sync_block, sync_block, runnable, current, set_current,
  set_frame, sched_status_of,
}
use cherios.Kernel.Ready.{sched_a2d, sched_d2a}
use cherios.Kernel.Msg.{msg_push}
use cherios.Kernel.Sched.{sched_reschedule}
use cherios.Kernel.Env.{Layout, otype_sync, kernel_seal, kernel_unseal, act_index}
use cherios.Kernel.Act.{act_wait, kernel_skip_instr}

-- CHERI_PERM_STORE
abbrev pub perm_store : ℕ
perm_store = 8

-- The offset of a synchronous token, and what `kernel_creturn` reads back from it. `& 0xFFFFFFF`
-- keeps 28 bits.
unfoldable pub token_offset : ℕ → ℕ → ℕ
token_offset ccaller unique = (ccaller * 2 ^ 32 + unique) % two_64

unfoldable pub token_caller : ℕ → ℕ
token_caller offset = offset / 2 ^ 32 % two_32

unfoldable pub token_unique : ℕ → ℕ
token_unique offset = offset % 2 ^ 28

-- `cflags` of `kernel_ccall`: 0, 1 and 2
pub data Mode : Type 0 where
  send send_switch sync_call : Mode

abbrev pub is_sync : Mode → Bool
is_sync sync_call = true
is_sync _ = false

-- `switch(ccall_selector)`; `none` is the default case.
unfoldable pub mode_of : ℕ → Option Mode
mode_of selector =
    if selector == 1
    then some send
    else (if selector == 2
        then some send_switch
        else (if selector == 4 then some sync_call else none))

module _ (c : Cheri) where
  open c use {Cap}

  -- The 256-bit build's version.
  unfoldable pub get_sync_token : Kernel Cap → ℕ → Res (Cap × Kernel Cap)
  unfolding token_offset kernel_seal
  get_sync_token k ccaller = do
    let unique = (k.unique + 1) % two_32
    let act = record (k.acts ccaller) { expected_reply = unique }
    bare ← or_trap (c.set_bounds (c.and_perm c.get_default 0) 0)
    token ← kernel_seal c (c.set_offset bare (token_offset ccaller unique)) otype_sync
    ok (token, record k { unique = unique; acts = update k.acts ccaller act })

  -- The token, for a synchronous call.
  unfoldable pub token_for : Kernel Cap → Mode → Res (Cap × Kernel Cap)
  unfolding get_sync_token
  token_for k mode = if is_sync mode then get_sync_token k k.curr_act else ok (c.null, k)

  -- The switch after the message has been pushed.
  unfoldable pub after_push : Kernel Cap → Mode → ℕ → Res (Kernel Cap)
  after_push k sync_call dest = do k' ← sched_a2d k k.curr_act sync_block; sched_reschedule k' dest
  after_push k send_switch dest = act_wait k k.curr_act dest
  after_push k send dest = ok k

  -- A full queue: a panic for a synchronous call, and otherwise 0 for the sender.
  unfoldable pub on_full : Kernel Cap → Mode → Res (Kernel Cap)
  on_full k mode =
      if is_sync mode then halt panic else ok (set_current k (record (current k) { v0 = 0 }))

  -- The rest of `kernel_ccall_core`, with the reference and the identifier unsealed.
  unfoldable pub ccall_to : Kernel Cap → Mode → ℕ → Cap → Res (Kernel Cap)
  unfolding token_for after_push on_full
  ccall_to k mode cb cs =
      if bit_and (c.get_perm cs) perm_store == 0
      then ok k
      else (if not (is_alive (k.acts cb).status) then ok k else (do
        (sync_token, k1) ← token_for k mode
        let dest = (k1.acts cb).aid
        (full, k2) ← msg_push k1 dest k1.curr_act cs sync_token
        k3 ← if full == 0 then ok k2 else on_full k2 mode
        after_push k3 mode (k3.acts cb).aid))

  module _ (l : Layout) where
    -- `cb->aid` and `cs`, unsealed
    unfoldable pub ccall_target : Kernel Cap → Res (ℕ × Cap)
    unfolding kernel_unseal act_index
    ccall_target k = do
      let cb = (current k).c1
      let otype = c.get_type cb
      cs ← kernel_unseal c (current k).c2 otype
      p ← kernel_unseal c cb otype
      i ← act_index c l p
      ok (i, cs)

    unfoldable pub kernel_ccall_core : Kernel Cap → Mode → Res (Kernel Cap)
    unfolding ccall_target ccall_to
    kernel_ccall_core k mode = do (cb, cs) ← ccall_target k; ccall_to k mode cb cs

    -- The two ends of the `switch`: an unknown selector returns at once.
    unfoldable pub ccall_by : Kernel Cap → Option Mode → Res (Kernel Cap)
    unfolding kernel_ccall_core
    ccall_by k none = ok k
    ccall_by k (some mode) = kernel_ccall_core k mode

    unfoldable pub kernel_ccall : Kernel Cap → Res (Kernel Cap)
    unfolding ccall_by mode_of kernel_skip_instr
    kernel_ccall k = ccall_by (kernel_skip_instr c k k.curr_act) (mode_of (current k).v1)

  -- The caller's frame with the callee's results.
  unfoldable pub give_reply : Kernel Cap → ℕ → Kernel Cap
  give_reply k ccaller =
      set_frame k ccaller (record (k.frames ccaller) {
        c3 = (current k).c3;
        v0 = (current k).v0;
        v1 = (current k).v1;
      })

  unfoldable pub creturn_reply : Kernel Cap → Cap → Res (Kernel Cap)
  unfolding kernel_unseal token_caller token_unique give_reply
  creturn_reply k sealed = do
    sync_token ← kernel_unseal c sealed otype_sync
    let offset = c.get_offset sync_token
    let ccaller = token_caller offset
    if not ((k.acts ccaller).expected_reply == token_unique offset) then halt panic else do
      assert (is_sync_block (sched_status_of k ccaller))
      k1 ← sched_d2a k ccaller runnable
      act_wait (give_reply k1 ccaller) k.curr_act ccaller

  unfoldable pub kernel_creturn : Kernel Cap → Res (Kernel Cap)
  unfolding creturn_reply kernel_skip_instr
  kernel_creturn k =
      let k1 = kernel_skip_instr c k k.curr_act in
      let sync_token = (current k1).c1 in
      if c.is_null sync_token
      then act_wait k1 k1.curr_act k1.curr_act
      else creturn_reply k1 sync_token
