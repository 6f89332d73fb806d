-- ===== src/Libuser/Client.antt =====
-- A client's synchronous call: libuser/src/object.c and the kernel's part of the call.
use cherios.Base.{
  ℕ, ◌^◌, ◌<◌, ◌≡◌, refl, sym, ap, ap₂, ◌∙◌, true, false, ok, >>=-eq-ok, assert, update_self,
  ok_injective, arith,
}
use cherios.Cheri.{Cheri, Laws}
use cherios.Kernel.State.{Kernel, Frame, current, set_current}
use cherios.Kernel.Env.{Layout, vcap_i}
use cherios.Kernel.Act.{kernel_skip_instr}
use cherios.Kernel.Ccall.{mode_of, ccall_target, kernel_ccall, kernel_creturn}
use cherios.Kernel.Ccall.Rpc.{IsOpen, IsCall, called, number, callee, ccall_to-IsCall}
use cherios.Kernel.Ccall.Roundtrip.{IsAnswer, kernel_ccall-eq, kernel_creturn-eq}
use cherios.Libuser.{vcap_x, vcap_w, ccall_regs, ccall_4}

module _ (c : Cheri) where
  open c use {Cap}

  -- The registers behind the two assertions
  abbrev pub call_frame : Frame Cap → Cap → Cap → ℕ → ℕ → ℕ → ℕ → Cap → Cap → Cap → Frame Cap
  call_frame f cb cs method_nb rarg1 rarg2 rarg3 carg1 carg2 carg3 = record f {
    c1 = cb;
    c2 = cs;
    v0 = method_nb;
    a0 = rarg1;
    a1 = rarg2;
    a2 = rarg3;
    c3 = carg1;
    c4 = carg2;
    c5 = carg3;
    v1 = 4;
  }

  -- The kernel when the client's registers are set and the instruction is skipped.
  abbrev pub past_call : Kernel Cap → Frame Cap → Kernel Cap
  past_call k f0 = let k0 = set_current k f0 in kernel_skip_instr c k0 k0.curr_act

  enters-eq :
      (f : Frame Cap) (cb cs : Cap) (m r1 r2 r3 : ℕ) (p1 p2 p3 : Cap) (f0 : Frame Cap)
      → (ccall_4 c f cb cs m r1 r2 r3 p1 p2 p3).enters ≡ ok f0
      → call_frame f cb cs m r1 r2 r3 p1 p2 p3 ≡ f0
  unfolding ccall_4 ccall_regs
  enters-eq f cb cs m r1 r2 r3 p1 p2 p3 f0 e =
      let (_, _, e1) = >>=-eq-ok (assert (vcap_i c cb 0 vcap_x true)) _ e in
      let (_, _, e2) = >>=-eq-ok (assert (vcap_i c cs 0 vcap_w true)) _ e1 in ok_injective e2

  -- What the callee finds in its registers.
  pub record IsPassed (f : Frame Cap) (m r1 r2 r3 : ℕ) (p1 p2 p3 : Cap) : Type 0 where
    pub method : f.v0 ≡ m
    pub a0 : f.a0 ≡ r1
    pub a1 : f.a1 ≡ r2
    pub a2 : f.a2 ≡ r3
    pub c3 : f.c3 ≡ p1
    pub c4 : f.c4 ≡ p2
    pub c5 : f.c5 ≡ p3

  abbrev pub IsCalled : Kernel Cap → ℕ → ℕ → ℕ → ℕ → Cap → Cap → Cap → Type 0
  IsCalled k = IsPassed (current k)

  -- Skipping an instruction keeps the registers of the call.
  skipped :
      (k0 : Kernel Cap)
      → let ks = kernel_skip_instr c k0 k0.curr_act in
        ((current ks).v0 ≡ (current k0).v0)
        × ((current ks).a0 ≡ (current k0).a0)
        × ((current ks).a1 ≡ (current k0).a1)
        × ((current ks).a2 ≡ (current k0).a2)
        × ((current ks).c3 ≡ (current k0).c3)
        × ((current ks).c4 ≡ (current k0).c4)
        × ((current ks).c5 ≡ (current k0).c5)
  unfolding kernel_skip_instr
  skipped k0 = ground arith

module _ (c : Cheri) (laws : Laws c) (l : Layout) where
  open c use {Cap}

  -- A call that `ccall_4` makes in a running kernel, to an activation that waits for a message: the
  -- registers that it sets, what the kernel finds behind the two capabilities, and the new token.
  -- No capability instruction traps, and fewer than 2^28 calls have been made.
  module _ (k : Kernel Cap) (cb cs : Cap) (m r1 r2 r3 : ℕ) (p1 p2 p3 : Cap) where
    pub record Calls (f0 : Frame Cap) (target : ℕ) (id bare t : Cap) : Type 0 where
      pub enters : (ccall_4 c (current k) cb cs m r1 r2 r3 p1 p2 p3).enters ≡ ok f0
      pub finds : ccall_target c l (past_call c k f0) ≡ ok (target, id)
      pub opened : IsOpen c (past_call c k f0) target id bare t
      pub free : c.get_sealed bare ≡ false
      pub small : number c (past_call c k f0) target id bare t < 2 ^ 28
      pub token : c.is_null t ≡ false

    module _ {f0 : Frame Cap} {target : ℕ} {id bare t : Cap}
        (calls : Calls f0 target id bare t) where
      -- The kernel in which the callee runs.
      abbrev pub callee_runs : Kernel Cap
      callee_runs = called c (past_call c k f0) target id bare t

      here : current (set_current k f0) ≡ call_frame c (current k) cb cs m r1 r2 r3 p1 p2 p3
      here =
          update_self k.frames k.framep f0
          ∙ sym (enters-eq c (current k) cb cs m r1 r2 r3 p1 p2 p3 f0 calls.enters)

      pub kernel_ccall-Calls : kernel_ccall c l (set_current k f0) ≡ ok callee_runs
      unfolding mode_of kernel_skip_instr
      kernel_ccall-Calls =
          kernel_ccall-eq c laws (past_call c k f0) target id bare t l (set_current k f0) refl
            (ap (λ f. mode_of f.v1) here) calls.finds calls.opened

      pub Calls-IsCall : IsCall c (past_call c k f0) target id bare t callee_runs
      Calls-IsCall = ccall_to-IsCall c (past_call c k f0) target id bare t calls.opened

      pub Calls-IsCalled : IsCalled c callee_runs m r1 r2 r3 p1 p2 p3
      Calls-IsCalled =
          let call = Calls-IsCall in
          let (sv0, sa0, sa1, sa2, sc3, sc4, sc5) = skipped c (set_current k f0) in
          record {
            method = call.v0 ∙ sv0 ∙ ap (λ f. f.v0) here;
            a0 = call.a0 ∙ sa0 ∙ ap (λ f. f.a0) here;
            a1 = call.a1 ∙ sa1 ∙ ap (λ f. f.a1) here;
            a2 = call.a2 ∙ sa2 ∙ ap (λ f. f.a2) here;
            c3 = call.c3 ∙ sc3 ∙ ap (λ f. f.c3) here;
            c4 = call.c4 ∙ sc4 ∙ ap (λ f. f.c4) here;
            c5 = call.c5 ∙ sc5 ∙ ap (λ f. f.c5) here;
          }

      -- The callee returns with its token.
      pub kernel_creturn-Calls :
          (g : Frame Cap)
          → g.c1 ≡ t
          → (k2 : Kernel Cap) × (kernel_creturn c (set_current callee_runs g) ≡ ok k2)
            × IsAnswer c laws (past_call c k f0) target id bare t g k2
            × (k2.curr_act ≡ k.curr_act)
      unfolding kernel_skip_instr
      kernel_creturn-Calls g kept =
          let (k2, done, found) =
            kernel_creturn-eq c laws (past_call c k f0) target id bare t g calls.opened calls.free
              calls.small kept calls.token in
          (k2, done, found, found.back)

  -- When `ccall_4` of the user library enters a running kernel, to an activation that waits for a
  -- message, that activation runs with the method's number and the six arguments in its registers;
  -- and when it returns with its token, `ccall_4` gives the results that it returned with. As for
  -- the kernel's part, no capability instruction traps, and fewer than 2^28 calls have been made.
  pub ccall_4-returns :
      (k : Kernel Cap) (cb cs : Cap) (m r1 r2 r3 : ℕ) (p1 p2 p3 : Cap) (f0 g : Frame Cap)
      (target : ℕ) (id bare t : Cap)
      → Calls k cb cs m r1 r2 r3 p1 p2 p3 f0 target id bare t
      → g.c1 ≡ t
      → (k1 : Kernel Cap) × (k2 : Kernel Cap) × (kernel_ccall c l (set_current k f0) ≡ ok k1)
        × (k1.curr_act ≡ callee c (past_call c k f0) target id bare t)
        × IsCalled c k1 m r1 r2 r3 p1 p2 p3
        × (kernel_creturn c (set_current k1 g) ≡ ok k2)
        × (k2.curr_act ≡ k.curr_act)
        × ((ccall_4 c (current k) cb cs m r1 r2 r3 p1 p2 p3).returns (current k2) ≡ (g.v0, g.c3))
  unfolding ccall_4
  ccall_4-returns k cb cs m r1 r2 r3 p1 p2 p3 f0 g target id bare t calls kept =
      let (k2, answers, answer, back) =
        kernel_creturn-Calls k cb cs m r1 r2 r3 p1 p2 p3 calls g kept in
      (
        callee_runs k cb cs m r1 r2 r3 p1 p2 p3 calls,
        k2,
        kernel_ccall-Calls k cb cs m r1 r2 r3 p1 p2 p3 calls,
        (Calls-IsCall k cb cs m r1 r2 r3 p1 p2 p3 calls).switched_to,
        Calls-IsCalled k cb cs m r1 r2 r3 p1 p2 p3 calls,
        answers,
        back,
        ap₂ (λ x y. (x, y)) answer.v0 answer.c3,
      )
