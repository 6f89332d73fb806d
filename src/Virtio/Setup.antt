-- ===== src/Virtio/Setup.antt =====
-- `vblk_init` of virtio-blk/src/virtio_blk.c, and the session afterwards.
use cherios.Base.{
  ℕ, ◌<◌, ◌≡◌, ◌≢◌, List, ◌∷◌, bit_and, ◌⊎◌, Bool, true, false, Option, none, some, update, ok,
  halt, assertion, trap, ◌==◌, if◌then◌else◌,
}
use cherios.Virtio.{
  Driver, Device, Headers, Rings, reg_status, mmio_read32, mmio_write32, current_session,
  set_session, needs_reset, vblk_rw,
}
use cherios.Virtio.Init.{identified, negotiate, fresh_session, vblk_init}
use cherios.Virtio.Requests.{IsIdle}

module _ {Token : Type 0} (null : Token) where
  -- What a stage of `vblk_init` leaves alone.
  record Keeps (d d' : Driver Token) : Type 0 where
    session : d'.session ≡ d.session
    sessions : d'.sessions ≡ d.sessions

  -- The driver in which the queue is started.
  abbrev cleared : Bool → Driver Token → Driver Token
  cleared reqs_null d = set_session d (fresh_session null reqs_null (current_session d))

  -- After these writes the device offers fewer descriptors than the queue has, or it asks for a reset
  -- once the queue is ready.
  pub Refuses : Device → List (ℕ × ℕ) → Type 0
  Refuses dev writes =
      (dev.read ((0x30, 0) ∷ writes) 0x34 < 3)
      ⊎ ((later : List (ℕ × ℕ)) × (bit_and (dev.read later reg_status) needs_reset ≢ 0))

  -- The session is marked as initialised, and the others stay as they are.
  pub record IsMarked (d d' : Driver Token) (cookie : ℕ) : Type 0 where
    pub init : (d'.sessions cookie).init ≡ 1
    pub others : (other : ℕ) → other ≢ cookie → d'.sessions other ≡ d.sessions other

  -- After `vblk_init` the session serves requests.
  pub record IsReady (d d' : Driver Token) (cookie : ℕ) : Type 0 where
    pub idle : IsIdle (d'.sessions cookie)
    pub marked : IsMarked d d' cookie

  -- After `vblk_init` every request traps on a device that does not ask for a reset.
  pub record IsStarved (d d' : Driver Token) (cookie : ℕ) : Type 0 where
    pub requests :
        (dev : Device) (h : Headers) (type flags buf sector : ℕ)
        → vblk_rw dev h null d' cookie type flags buf sector ≡ (
            if bit_and (mmio_read32 dev d' reg_status) needs_reset == 0
            then halt trap
            else halt assertion)
    pub marked : IsMarked d d' cookie

  module _ (reqs_null : Bool) (d d1 d' : Driver Token) (cookie : ℕ) where
    -- What `start_queue` and the stages before it have done to the sessions.
    record IsStarted : Type 0 where
      me : d1.session ≡ cookie
      others : (other : ℕ) → other ≢ cookie → d1.sessions other ≡ d.sessions other
      what :
          d'.sessions
          ≡ update
              (cleared reqs_null d1).sessions
              (cleared reqs_null d1).session
              (record ((cleared reqs_null d1).sessions (cleared reqs_null d1).session) { init = 1 })

  -- The driver after the reset of the device, and after the features have been agreed on.
  abbrev reset : Driver Token → ℕ → Driver Token
  reset d cookie =
      let d1 = mmio_write32 (record d { session = cookie }) reg_status 0 in
      set_session d1 (record (current_session d1) { init = 0 })

  abbrev agreed : Device → Driver Token → ℕ → Driver Token
  agreed dev d cookie = negotiate dev (reset d cookie)

  -- Why `vblk_init` fails an assertion
  abbrev pub Fails : Device → Option Rings → Driver Token → ℕ → Type 0
  Fails dev rings d cookie =
      (identified dev (reset d cookie) ≡ false)
      ⊎ (rings ≡ none)
      ⊎ Refuses dev (agreed dev d cookie).writes

  -- What comes of `vblk_init`.
  abbrev pub Initialises : Device → Bool → Option Rings → Driver Token → ℕ → Type 0
  Initialises dev reqs_null rings d cookie =
      ((vblk_init dev null reqs_null rings d (some cookie) ≡ halt assertion)
        × Fails dev rings d cookie)
      ⊎ ((d' : Driver Token) × (vblk_init dev null reqs_null rings d (some cookie) ≡ ok (0, d'))
          × (((reqs_null ≡ false) × IsReady d d' cookie)
              ⊎ ((reqs_null ≡ true) × IsStarved d d' cookie)))
