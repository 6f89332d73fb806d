-- ===== src/Libuser/Server/Served.antt =====
-- A call of a service, from the client's stub to its result: libuser/src/object.c and msg.S around
-- the kernel's part.
use cherios.Base.{ℕ, ◌≡◌, refl, ap₂, ◌∙◌, ok}
use cherios.Cheri.{Cheri, Laws}
use cherios.Kernel.State.{Kernel, Frame, current, set_current}
use cherios.Kernel.Inv.{IsRunning}
use cherios.Kernel.Env.{Layout}
use cherios.Libuser.{ccall_4}
use cherios.Libuser.Client.{
  IsPassed, Calls, callee_runs, kernel_ccall-Calls, Calls-IsCall, Calls-IsCalled,
  kernel_creturn-Calls,
}
use cherios.Libuser.Server.{Methods, msg_entry, exchange}

module _ (c : Cheri) {S : Type 0} (methods : Methods c.Cap S) where
  open c use {Cap}

  -- The service answers a message with these arguments, and the result that `post` reads from the
  -- registers v0 and c3; it answers with the message's own token.
  pub record Serves (s own' : S) (m r1 r2 r3 : ℕ) (p1 p2 p3 id : Cap) {A : Type 0}
      (post : ℕ × Cap → A) (a : A) : Type 0 where
    pub result : Frame Cap → Frame Cap
    pub answers :
        (f : Frame Cap) (t : Cap)
        → IsPassed c f m r1 r2 r3 p1 p2 p3
        → f.idc ≡ id
        → msg_entry c methods f (record { own = s; sync_token = t })
          ≡ ok (result f, record { own = own'; sync_token = f.c1 })
    pub token : (f : Frame Cap) → (result f).c1 ≡ f.c1
    pub value :
        (f : Frame Cap) → IsPassed c f m r1 r2 r3 p1 p2 p3 → post ((result f).v0, (result f).c3) ≡ a

module _ (c : Cheri) (laws : Laws c) (l : Layout) {S : Type 0} (methods : Methods c.Cap S) where
  open c use {Cap}

  -- When a client's `ccall_4` enters a running kernel, to a service that waits for a message and
  -- that serves this one, then the exchange ends: the client runs again in a sound kernel, its stub
  -- gives the service's result, and the service has the state that serving left.
  pub ccall_4-served :
      (k : Kernel Cap) (cb cs : Cap) (m r1 r2 r3 : ℕ) (p1 p2 p3 : Cap) (f0 : Frame Cap) (target : ℕ)
      (id bare t last : Cap) (s own' : S) {A : Type 0} (post : ℕ × Cap → A) (a : A)
      → Calls c laws l k cb cs m r1 r2 r3 p1 p2 p3 f0 target id bare t
      → Serves c methods s own' m r1 r2 r3 p1 p2 p3 id post a
      → (k2 : Kernel Cap) × (exchange c l methods
            (set_current k f0)
            (record { own = s; sync_token = last })
          ≡ ok (k2, record { own = own'; sync_token = t }))
        × IsRunning k2
        × (k2.curr_act ≡ k.curr_act)
        × (post ((ccall_4 c (current k) cb cs m r1 r2 r3 p1 p2 p3).returns (current k2)) ≡ a)
  unfolding exchange ccall_4
  ccall_4-served k cb cs m r1 r2 r3 p1 p2 p3 f0 target id bare t last s own' post a calls serves =
      let k1 = callee_runs c laws l k cb cs m r1 r2 r3 p1 p2 p3 calls in
      let call = Calls-IsCall c laws l k cb cs m r1 r2 r3 p1 p2 p3 calls in
      let passed = Calls-IsCalled c laws l k cb cs m r1 r2 r3 p1 p2 p3 calls in
      let g = serves.result (current k1) in
      let (k2, back, answer, who) =
        kernel_creturn-Calls c laws l k cb cs m r1 r2 r3 p1 p2 p3 calls g
          (serves.token (current k1) ∙ call.c1) in
      (
        k2,
        rw
            (
              kernel_ccall-Calls c laws l k cb cs m r1 r2 r3 p1 p2 p3 calls,
              serves.answers (current k1) last passed call.idc,
              back,
              call.c1,
            )
            refl,
        answer.running,
        who,
        ap₂ (λ x y. post (x, y)) answer.v0 answer.c3 ∙ serves.value (current k1) passed,
      )
