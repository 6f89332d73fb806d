-- ===== src/Kernel/Ccall/Standing.antt =====
-- The owner of an interrupt stays in calls and returns: kernel/src/ccall.c.
use cherios.Base.{
  ℕ, ◌+◌, ◌%◌, ◌==◌, not, bit_and, Option, none, some, Res, ok, panic, assert, or_trap,
  if◌then◌else◌, two_32,
}
use cherios.Cheri.{Cheri}
use cherios.Kernel.State.{
  Kernel, current, sync_block, runnable, is_alive, is_sync_block, sched_status_of,
}
use cherios.Kernel.Env.{Layout, kernel_seal, kernel_unseal, otype_sync}
use cherios.Kernel.Act.{kernel_skip_instr}
use cherios.Kernel.Msg.{msg_push}
use cherios.Kernel.Ready.{sched_a2d, sched_d2a}
use cherios.Kernel.Ccall.{
  Mode, send, send_switch, sync_call, is_sync, token_offset, token_caller, token_unique, perm_store,
  get_sync_token, token_for, after_push, on_full, ccall_to, ccall_target, kernel_ccall_core,
  ccall_by, kernel_ccall, mode_of, give_reply, creturn_reply, kernel_creturn,
}
use cherios.Kernel.Interrupts.Standing.{
  Keeps, kept, stops, whole, second, Owns, bind-Keeps, then-Keeps, if-Keeps, sched_d2a-Keeps,
  sched_a2d-Keeps, msg_push-Keeps, sched_reschedule-Keeps, act_wait-Keeps,
}

module _ (c : Cheri) (n a : ℕ) where
  open c use {Cap}

  abbrev pub Stays : Res (Kernel Cap) → Type 0
  Stays = Keeps (Owns n a) whole

  abbrev pub StaysWith : {A : Type 0} → Res (A × Kernel Cap) → Type 0
  StaysWith = Keeps (Owns n a) second

  get_sync_token-Keeps :
      (k : Kernel Cap) (ccaller : ℕ) → Owns n a k → StaysWith (get_sync_token c k ccaller)
  unfolding get_sync_token
  get_sync_token-Keeps k ccaller v =
      let unique = (k.unique + 1) % two_32 in
      then-Keeps n a second (or_trap (c.set_bounds (c.and_perm c.get_default 0) 0)) _ (λ bare.
        then-Keeps n a second
          (kernel_seal c (c.set_offset bare (token_offset ccaller unique)) otype_sync) _
          (λ t. kept _ v))

  token_for-Keeps : (k : Kernel Cap) (mode : Mode) → Owns n a k → StaysWith (token_for c k mode)
  unfolding token_for
  token_for-Keeps k mode v =
      if-Keeps n a second (is_sync mode) _ _ (get_sync_token-Keeps k k.curr_act v) (kept _ v)

  after_push-Keeps :
      (k : Kernel Cap) (mode : Mode) (dest : ℕ) → Owns n a k → Stays (after_push c k mode dest)
  unfolding after_push
  after_push-Keeps k sync_call dest v =
      bind-Keeps n a whole whole (sched_a2d k k.curr_act sync_block) _
        (sched_a2d-Keeps n a k k.curr_act sync_block v)
        (λ k' w. sched_reschedule-Keeps n a k' dest w)
  after_push-Keeps k send_switch dest v = act_wait-Keeps n a k k.curr_act dest v
  after_push-Keeps k send dest v = kept k v

  on_full-Keeps : (k : Kernel Cap) (mode : Mode) → Owns n a k → Stays (on_full c k mode)
  unfolding on_full
  on_full-Keeps k mode v = if-Keeps n a whole (is_sync mode) _ _ (stops panic) (kept _ v)

  ccall_to-Keeps :
      (k : Kernel Cap) (mode : Mode) (cb : ℕ) (cs : Cap)
      → Owns n a k
      → Stays (ccall_to c k mode cb cs)
  unfolding ccall_to
  ccall_to-Keeps k mode cb cs v =
      if-Keeps n a whole (bit_and (c.get_perm cs) perm_store == 0) _ _ (kept k v) (
        if-Keeps n a whole (not (is_alive (k.acts cb).status)) _ _ (kept k v) (
          bind-Keeps n a second whole (token_for c k mode) _ (token_for-Keeps k mode v)
            (λ (t, k1) v1.
              let dest = (k1.acts cb).aid in
              bind-Keeps n a second whole (msg_push k1 dest k1.curr_act cs t) _
                (msg_push-Keeps n a k1 dest k1.curr_act cs t v1)
                (λ (full, k2) v2.
                  bind-Keeps n a whole whole (if full == 0 then ok k2 else on_full c k2 mode) _
                    (if-Keeps n a whole (full == 0) _ _ (kept k2 v2) (on_full-Keeps k2 mode v2))
                    (λ k3 v3. after_push-Keeps k3 mode (k3.acts cb).aid v3)))))

  ccall_by-Keeps :
      (l : Layout) (k : Kernel Cap) (mode : Option Mode) → Owns n a k → Stays (ccall_by c l k mode)
  unfolding ccall_by kernel_ccall_core
  ccall_by-Keeps l k none v = kept k v
  ccall_by-Keeps l k (some mode) v =
      then-Keeps n a whole (ccall_target c l k) _ (λ (cb, cs). ccall_to-Keeps k mode cb cs v)

  pub kernel_ccall-Keeps : (l : Layout) (k : Kernel Cap) → Owns n a k → Stays (kernel_ccall c l k)
  unfolding kernel_ccall kernel_skip_instr
  kernel_ccall-Keeps l k v =
      ccall_by-Keeps l (kernel_skip_instr c k k.curr_act) (mode_of (current k).v1) v

  creturn_reply-Keeps :
      (k : Kernel Cap) (sealed : Cap) → Owns n a k → Stays (creturn_reply c k sealed)
  unfolding creturn_reply give_reply
  creturn_reply-Keeps k sealed v = then-Keeps n a whole (kernel_unseal c sealed otype_sync) _ (λ t.
      let ccaller = token_caller (c.get_offset t) in
      let wrong = not ((k.acts ccaller).expected_reply == token_unique (c.get_offset t)) in
      if-Keeps n a whole wrong _ _ (stops panic) (
        then-Keeps n a whole (assert (is_sync_block (sched_status_of k ccaller))) _ (λ x.
          bind-Keeps n a whole whole (sched_d2a k ccaller runnable) _
            (sched_d2a-Keeps n a k ccaller runnable v)
            (λ k1 w. act_wait-Keeps n a (give_reply c k1 ccaller) k.curr_act ccaller w))))

  pub kernel_creturn-Keeps : (k : Kernel Cap) → Owns n a k → Stays (kernel_creturn c k)
  unfolding kernel_creturn kernel_skip_instr
  kernel_creturn-Keeps k v =
      let k1 = kernel_skip_instr c k k.curr_act in
      if-Keeps n a whole (c.is_null (current k1).c1) _ _
        (act_wait-Keeps n a k1 k1.curr_act k1.curr_act v) (creturn_reply-Keeps k1 (current k1).c1 v)
