-- ===== src/Virtio/Service.antt =====
-- virtio-blk/src/main.c: the block driver's methods, as messages reach them. `malloc`, the kernel's
-- answer to `act_seal_id` and the session behind a cookie are parameters.
use cherios.Base.{
  ℕ, List, ◌∷◌, [], update, Bool, Option, none, some, Res, ok, halt, assertion, assert, ◌>>=◌, ◌>>◌,
}
use cherios.Cheri.{Cheri}
use cherios.Kernel.State.{Frame}
use cherios.Kernel.Env.{vcap}
use cherios.Libuser.Server.{Method, Methods, sign_extend, null_method, void_method}
use cherios.Virtio.{
  Driver, Device, Headers, Rings, vblk_read, vblk_write, vblk_status, vblk_interrupt, vblk_size,
}
use cherios.Virtio.Init.{vblk_init}

-- VCAP_RW
abbrev pub vcap_rw : ℕ
vcap_rw = 12

-- What the service calls and does not implement; `capacity` is the device's register.
pub record Host (Cap : Type 0) : Type 0 where
  pub session_of : Cap → ℕ
  pub address : Cap → ℕ
  pub malloc : Driver Cap → Option ℕ
  pub seal_id : ℕ → Cap
  pub reqs_null : Bool
  pub rings : Option Rings
  pub headers : Headers
  pub capacity : List (ℕ × ℕ) → ℕ

module _ (c : Cheri) where
  open c use {Cap}

  -- A method that returns an `int`, with the two copies of `sync_token` as the one variable that
  -- they are.
  unfoldable pub int_method :
      (Frame Cap → Driver Cap → Res (ℕ × Driver Cap)) → Method Cap (Driver Cap)
  int_method handler f s = do
    (ret, d) ← handler f (record s.own { sync_token = s.sync_token })
    ok (record f { v0 = sign_extend ret }, record { own = d; sync_token = d.sync_token })

  -- `new_session`: NULL is no memory.
  unfoldable pub new_session : Host Cap → Method Cap (Driver Cap)
  new_session h f s = elim (h.malloc s.own) [
    | none ↦ halt assertion
    | some i ↦ do
      assert (vcap c f.c3 0x200 vcap_rw)
      let made = record (s.own.sessions i) { init = 0 }
      ok (
        record f { c3 = h.seal_id i },
        record s { own = record s.own { sessions = update s.own.sessions i made } },
      )
  ]

  unfoldable pub size_method : Host Cap → Method Cap (Driver Cap)
  size_method h f s =
      let (size, d) = vblk_size h.capacity s.own (h.session_of f.idc) in
      ok (record f { v0 = size }, record s { own = d })

  unfoldable pub vblk_methods : Host Cap → Device → Methods Cap (Driver Cap)
  unfolding int_method new_session size_method
  vblk_methods h dev = record {
    msg_methods =
        int_method (λ f d. vblk_init dev c.null h.reqs_null h.rings d (some (h.session_of f.idc)))
        ∷ int_method
            (λ f d. vblk_read dev h.headers c.null d (h.session_of f.idc) (h.address f.c3) f.a0)
        ∷ int_method
            (λ f d. vblk_write dev h.headers c.null d (h.session_of f.idc) (h.address f.c3) f.a0)
        ∷ int_method (λ f d. ok (vblk_status dev d (h.session_of f.idc)))
        ∷ size_method h
        ∷ [];
    ctrl_methods =
        null_method ∷ new_session h ∷ void_method ∷ int_method (λ f d. vblk_interrupt dev d) ∷ [];
  }
