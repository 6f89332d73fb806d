-- ===== src/Libuser/Server/Unknown.antt =====
-- libuser/src/msg.S: a message that asks for a method which the service does not have. The stub
-- loads `sync_token` from memory on its way out, and on this path it has not stored it.
use cherios.Base.{
  ℕ, ◌≡◌, ◌≢◌, ◌⊎◌, inl, inr, refl, sym, ap, ◌∙◌, false, none, some, ==_iff, Bool-cases, halt,
  panic, assertion, ◌==◌, arith,
}
use cherios.Cheri.{Cheri, Laws}
use cherios.Kernel.State.{Kernel, Frame, current, set_current, is_sync_block, sched_status_of}
use cherios.Kernel.Env.{Layout, otype_sync}
use cherios.Kernel.Act.{kernel_skip_instr}
use cherios.Kernel.Ccall.{token_caller, token_unique, creturn_reply, kernel_creturn}
use cherios.Kernel.Ccall.Reply.{Opens, creturn-unexpected, creturn-replayed}
use cherios.Kernel.Ccall.Rpc.{number}
use cherios.Libuser.Client.{
  Calls, past_call, callee_runs, kernel_ccall-Calls, Calls-IsCall, Calls-IsCalled,
}
use cherios.Libuser.Server.{Server, Methods, select, exchange}

module _ (c : Cheri) (laws : Laws c) (l : Layout) (k : Kernel c.Cap) (cb cs : c.Cap)
    (m r1 r2 r3 : ℕ) (p1 p2 p3 : c.Cap) {f0 : Frame c.Cap} {target : ℕ} {id bare t : c.Cap}
    (calls : Calls c laws l k cb cs m r1 r2 r3 p1 p2 p3 f0 target id bare t) where
  open c use {Cap}

  abbrev k1 : Kernel Cap
  k1 = callee_runs c laws l k cb cs m r1 r2 r3 p1 p2 p3 calls

  -- The call changes no other activation's expected reply, and blocks no other.
  others-expected :
      (w : ℕ) → w ≢ k.curr_act → (k1.acts w).expected_reply ≡ (k.acts w).expected_reply
  unfolding kernel_skip_instr
  others-expected w ne = ground arith

  others-free :
      (w : ℕ)
      → w ≢ k.curr_act
      → is_sync_block (sched_status_of k w) ≡ false
      → is_sync_block (sched_status_of k1 w) ≡ false
  unfolding kernel_skip_instr
  others-free w ne free = ground arith

  -- The kernel behind the service's CReturn.
  abbrev returned : Frame Cap → Kernel Cap
  returned g = let k2 = set_current k1 g in kernel_skip_instr c k2 k2.curr_act

  creturn-stale :
      (g : Frame Cap) (p : Cap)
      → Opens c (returned g) g.c1 p
      → (k1.acts (token_caller (c.get_offset p))).expected_reply ≡ token_unique (c.get_offset p)
      → is_sync_block (sched_status_of k1 (token_caller (c.get_offset p))) ≡ false
      → creturn_reply c (returned g) g.c1 ≡ halt assertion
  unfolding kernel_skip_instr
  creturn-stale g p opens same free = creturn-replayed c (returned g) g.c1 p opens same free

  creturn-other :
      (g : Frame Cap) (p : Cap)
      → Opens c (returned g) g.c1 p
      → (k1.acts (token_caller (c.get_offset p))).expected_reply ≢ token_unique (c.get_offset p)
      → creturn_reply c (returned g) g.c1 ≡ halt panic
  unfolding kernel_skip_instr
  creturn-other g p opens ne = creturn-unexpected c (returned g) g.c1 p opens ne

  creturn-token :
      (g : Frame Cap)
      → c.is_null g.c1 ≡ false
      → kernel_creturn c (set_current k1 g) ≡ creturn_reply c (returned g) g.c1
  unfolding kernel_creturn kernel_skip_instr
  creturn-token g token = ground arith

  -- The token of a call that has been answered, in a CReturn from this one.
  creturn-answered :
      (g : Frame Cap) (p : Cap)
      → c.unseal g.c1 (c.set_offset c.get_default otype_sync) ≡ some p
      → let w = token_caller (c.get_offset p) in
        let u = token_unique (c.get_offset p) in
        u ≢ number c (past_call c k f0) target id bare t
        → ((k.acts w).expected_reply ≡ u → is_sync_block (sched_status_of k w) ≡ false)
        → (creturn_reply c (returned g) g.c1 ≡ halt panic)
          ⊎ (creturn_reply c (returned g) g.c1 ≡ halt assertion)
  unfolding kernel_skip_instr
  creturn-answered g p opens ne answered =
      let w = token_caller (c.get_offset p) in
      let u = token_unique (c.get_offset p) in
      let mine = (Calls-IsCall c laws l k cb cs m r1 r2 r3 p1 p2 p3 calls).expected in
      elim (Bool-cases ((k1.acts w).expected_reply == u)) [
        | inr differs ↦ inl (creturn-other g p opens (ground arith))
        | inl same ↦
            let other : w ≢ k.curr_act =
              λ e. ne (sym ((==_iff _ _).0 same) ∙ ap (λ a. (k1.acts a).expected_reply) e ∙ mine) in
            inr (
              creturn-stale g p opens ((==_iff _ _).0 same) (
                others-free w other
                  (answered (sym (others-expected w other) ∙ (==_iff _ _).0 same))))
      ]

  -- If a client's call asks a service for a method that it does not have, and the service has
  -- answered a call before, whose number is another and whose caller does not wait for it any more,
  -- then the service answers with that call's token, and the kernel panics or fails an assertion.
  pub unknown_method-halts :
      {S : Type 0} (methods : Methods Cap S) (s : Server Cap S) (p : Cap)
      → select c methods m ≡ none
      → c.is_null s.sync_token ≡ false
      → c.unseal s.sync_token (c.set_offset c.get_default otype_sync) ≡ some p
      → token_unique (c.get_offset p) ≢ number c (past_call c k f0) target id bare t
      → ((k.acts (token_caller (c.get_offset p))).expected_reply ≡ token_unique (c.get_offset p)
          → is_sync_block (sched_status_of k (token_caller (c.get_offset p))) ≡ false)
      → (exchange c l methods (set_current k f0) s ≡ halt panic)
        ⊎ (exchange c l methods (set_current k f0) s ≡ halt assertion)
  unfolding exchange
  unknown_method-halts methods s p absent token opens ne answered =
      let passed = Calls-IsCalled c laws l k cb cs m r1 r2 r3 p1 p2 p3 calls in
      let g = record (current k1) { v0 = 0; v1 = 0; c3 = c.null; c1 = s.sync_token } in
      let entered = kernel_ccall-Calls c laws l k cb cs m r1 r2 r3 p1 p2 p3 calls in
      let back = creturn-token g token in
      elim (creturn-answered g p opens ne answered) [
        | inl e ↦ inl (rw (entered, passed.method, absent, back, e) refl)
        | inr e ↦ inr (rw (entered, passed.method, absent, back, e) refl)
      ]
