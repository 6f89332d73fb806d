-- ===== src/Kernel/Ccall/Roundtrip.antt =====
-- A remote procedure call of kernel/src/ccall.c: CCall, the callee's work, CReturn.
use cherios.Base.{ℕ, ◌^◌, ◌<◌, ◌≡◌, sym, ap, ◌∙◌, true, false, some, ok, arith}
use cherios.Cheri.{Cheri, Laws}
use cherios.Kernel.State.{Kernel, Frame, is_sync_block, sched_status_of, current, set_current}
use cherios.Kernel.Inv.{IsRunning}
use cherios.Kernel.Env.{Layout, otype_sync}
use cherios.Kernel.Act.{kernel_skip_instr}
use cherios.Kernel.Ccall.{
  sync_call, mode_of, token_offset, token_caller, token_unique, ccall_target, ccall_by,
  kernel_ccall_core, kernel_ccall, creturn_reply, kernel_creturn,
}
use cherios.Kernel.Ccall.Deliver.{reframed-IsRunning}
use cherios.Kernel.Ccall.Reply.{Opens, caller, expected, creturn-IsReply, token-roundtrip}
use cherios.Kernel.Ccall.Rpc.{IsOpen, IsCall, called, number, ccall_to-eq, ccall_to-IsCall}

module _ (c : Cheri) (laws : Laws c) (k : Kernel c.Cap) (cb : ℕ) (cs bare t : c.Cap) where
  open c use {Cap}

  -- A kernel in which the caller is still blocked in the call.
  pub record IsWaiting (k' : Kernel Cap) : Type 0 where
    pub running : IsRunning k'
    pub blocked : is_sync_block (sched_status_of k' k.curr_act) ≡ true
    pub expects : (k'.acts k.curr_act).expected_reply ≡ number c k cb cs bare t
    pub known : k.curr_act < k'.next_act

  pub called-IsWaiting : IsOpen c k cb cs bare t → IsWaiting (called c k cb cs bare t)
  called-IsWaiting o =
      let call = ccall_to-IsCall c k cb cs bare t o in
      let known = o.running.sound.ready.known k.curr_act (ground (arith, o.running.runs)) in
      record {
        running = call.running;
        blocked = call.blocked;
        expects = call.expected;
        known = rw call.next known.1;
      }

  -- The callee's return: its registers when it returns, as its code has left them, and the kernel
  -- behind the instruction.
  abbrev pub returning : Kernel Cap → Frame Cap → Kernel Cap
  returning k' f = let k1 = set_current k' f in kernel_skip_instr c k1 k1.curr_act

  -- The token without its seal
  abbrev open_token : Cap
  open_token = c.set_offset bare (token_offset k.curr_act (number c k cb cs bare t))

  token-Opens :
      (k' : Kernel Cap) (f : Frame Cap)
      → IsOpen c k cb cs bare t
      → Opens c (returning k' f) t open_token
  token-Opens k' f o =
      laws.unseal-seal open_token (c.set_offset c.get_default otype_sync) t o.sealed

  token-offset :
      c.get_sealed bare ≡ false
      → c.get_offset open_token ≡ token_offset k.curr_act (number c k cb cs bare t)
  unfolding token_offset
  token-offset free = laws.get_offset-set_offset bare _ free (omega arith)

  returning-IsRunning :
      (k' : Kernel Cap) (f : Frame Cap) → IsRunning k' → IsRunning (returning k' f)
  unfolding kernel_skip_instr
  returning-IsRunning k' f v = reframed-IsRunning k' _ v

  -- What the caller finds after the call.
  pub record IsAnswer (f : Frame Cap) (k' : Kernel Cap) : Type 0 where
    pub running : IsRunning k'
    pub back : k'.curr_act ≡ k.curr_act
    pub v0 : (current k').v0 ≡ f.v0
    pub v1 : (current k').v1 ≡ f.v1
    pub c3 : (current k').c3 ≡ f.c3

  results :
      (k' : Kernel Cap) (f : Frame Cap)
      → ((current (returning k' f)).v0 ≡ f.v0)
        × ((current (returning k' f)).v1 ≡ f.v1)
        × ((current (returning k' f)).c3 ≡ f.c3)
        × ((current (returning k' f)).c1 ≡ f.c1)
  unfolding kernel_skip_instr
  results k' f = ground arith

  answer :
      (k' : Kernel Cap) (f : Frame Cap)
      → IsOpen c k cb cs bare t
      → IsWaiting k'
      → c.get_sealed bare ≡ false
      → number c k cb cs bare t < 2 ^ 28
      → (k2 : Kernel Cap) × (creturn_reply c (returning k' f) t ≡ ok k2) × IsAnswer f k2
  unfolding kernel_skip_instr
  answer k' f o w free small =
      let known = o.running.sound.ready.known k.curr_act (ground (arith, o.running.runs)) in
      let room = o.running.sound.ready.room in
      let (who, which) =
        token-roundtrip k.curr_act (number c k cb cs bare t) (omega (arith, known, room)) small in
      let at : caller c (returning k' f) t open_token ≡ k.curr_act =
        ap token_caller (token-offset free) ∙ who in
      let num : token_unique (c.get_offset open_token) ≡ number c k cb cs bare t =
        ap token_unique (token-offset free) ∙ which in
      let expects : expected c (returning k' f) t open_token
          ≡ token_unique (c.get_offset open_token) =
        ap (λ a. (k'.acts a).expected_reply) at ∙ w.expects ∙ sym num in
      let (k2, done, reply) =
        creturn-IsReply c (returning k' f) t open_token (token-Opens k' f o)
          (returning-IsRunning k' f w.running) expects
          (ap (λ a. is_sync_block (sched_status_of k' a)) at ∙ w.blocked) (rw at known.0)
          (rw at w.known) in
      (
        k2,
        done,
        record {
          running = reply.running;
          back = reply.switched ∙ at;
          v0 = reply.v0 ∙ (results k' f).0;
          v1 = reply.v1 ∙ (results k' f).1;
          c3 = reply.c3 ∙ (results k' f).2;
        },
      )

  -- The two halves of the call.
  pub kernel_ccall-eq :
      (l : Layout) (k0 : Kernel Cap)
      → k ≡ kernel_skip_instr c k0 k0.curr_act
      → mode_of (current k0).v1 ≡ some sync_call
      → ccall_target c l k ≡ ok (cb, cs)
      → IsOpen c k cb cs bare t
      → kernel_ccall c l k0 ≡ ok (called c k cb cs bare t)
  unfolding kernel_ccall ccall_by kernel_ccall_core
  kernel_ccall-eq l k0 skip mode target o =
      rw (← skip, mode, target) (ccall_to-eq c k cb cs bare t o)

  pub kernel_creturn-later :
      (k' : Kernel Cap) (f : Frame Cap)
      → IsOpen c k cb cs bare t
      → IsWaiting k'
      → c.get_sealed bare ≡ false
      → number c k cb cs bare t < 2 ^ 28
      → f.c1 ≡ t
      → c.is_null t ≡ false
      → (k2 : Kernel Cap) × (kernel_creturn c (set_current k' f) ≡ ok k2) × IsAnswer f k2
  unfolding kernel_creturn
  kernel_creturn-later k' f o w free small kept token =
      let (k2, done, found) = answer k' f o w free small in
      let here : (current (returning k' f)).c1 ≡ t = (results k' f).3 ∙ kept in
      (k2, rw (here, token) done, found)

  pub kernel_creturn-eq :
      (f : Frame Cap)
      → IsOpen c k cb cs bare t
      → c.get_sealed bare ≡ false
      → number c k cb cs bare t < 2 ^ 28
      → f.c1 ≡ t
      → c.is_null t ≡ false
      → (k2 : Kernel Cap) × (kernel_creturn c (set_current (called c k cb cs bare t) f) ≡ ok k2)
        × IsAnswer f k2
  kernel_creturn-eq f o free small kept token =
      kernel_creturn-later (called c k cb cs bare t) f o (called-IsWaiting o) free small kept token

  -- A synchronous CCall to an activation that waits for a message, and that its identifier lets the
  -- caller call, runs the callee with the caller's arguments and blocks the caller; and when the
  -- callee returns with the token it was given, the caller runs again with the callee's results in
  -- its registers; provided that no capability instruction traps and fewer than 2^28 calls have
  -- been made.
  pub kernel_ccall-creturn :
      (l : Layout) (k0 : Kernel Cap) (f : Frame Cap)
      → k ≡ kernel_skip_instr c k0 k0.curr_act
      → mode_of (current k0).v1 ≡ some sync_call
      → ccall_target c l k ≡ ok (cb, cs)
      → IsOpen c k cb cs bare t
      → c.get_sealed bare ≡ false
      → number c k cb cs bare t < 2 ^ 28
      → f.c1 ≡ t
      → c.is_null t ≡ false
      → (k1 : Kernel Cap) × (k2 : Kernel Cap) × (kernel_ccall c l k0 ≡ ok k1)
        × IsCall c k cb cs bare t k1
        × (kernel_creturn c (set_current k1 f) ≡ ok k2)
        × IsAnswer f k2
  kernel_ccall-creturn l k0 f skip mode target o free small kept token =
      let (k2, done, found) = kernel_creturn-eq f o free small kept token in
      (
        called c k cb cs bare t,
        k2,
        kernel_ccall-eq l k0 skip mode target o,
        ccall_to-IsCall c k cb cs bare t o,
        done,
        found,
      )
