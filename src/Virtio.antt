-- ===== src/Virtio.antt =====
-- virtio-blk/src/virtio_blk.c: the block driver. A session is the client's cookie; `calloc`, the
-- addresses in the request table and the device are parameters. The device answers a read of a
-- register by what has been written so far, newest first, and it fills the ring of used chains and
-- the requests' status.
pub mod Requests
pub mod Init
pub mod Setup
pub mod Lifetime
pub mod Service
pub mod Client
pub mod Deferred
use cherios.Base.{
  ℕ, zero, suc, ◌+◌, ◌-◌, ◌*◌, ◌%◌, ◌^◌, ◌≡◌, bit_and, bit_or, Bool, true, false, not, ◌&&◌, List,
  [], ◌∷◌, Option, none, some, update, Res, ok, halt, assertion, trap, overrun, assert, ◌>>=◌, ◌>>◌,
  ◌==◌, leb, ltb, if◌then◌else◌, two_32,
}

-- `struct virtq_desc`
pub record Desc : Type 0 where
  pub addr : ℕ
  pub len : ℕ
  pub flags : ℕ
  pub next : ℕ

-- `req_t`; its `inhdr` is the device's.
pub record Req (Token : Type 0) : Type 0 where
  pub used : ℕ
  pub sync_token : Token
  pub type : ℕ
  pub sector : ℕ

-- `session_t` with its `struct virtq`; `reqs_null` says that `reqs` is the NULL that `calloc` gave.
pub record Session (Token : Type 0) : Type 0 where
  pub init : ℕ
  pub req_nb : ℕ
  pub reqs_null : Bool
  pub reqs : ℕ → Req Token
  pub num : ℕ
  pub desc : ℕ → Desc
  pub avail_idx : ℕ
  pub avail_ring : ℕ → ℕ
  pub last_used_idx : ℕ

-- The static variables, the sessions, and what has been done to the device.
pub record Driver (Token : Type 0) : Type 0 where
  pub sessions : ℕ → Session Token
  pub session : ℕ
  pub expected_session : ℕ
  pub expected_i : ℕ
  pub sync_token : Token
  pub writes : List (ℕ × ℕ)
  pub irq_enabled : Bool

pub record Device : Type 0 where
  pub read : List (ℕ × ℕ) → ℕ → ℕ
  pub used_id : ℕ → ℕ
  pub used_len : ℕ → ℕ
  pub req_status : ℕ → ℕ

-- Where `outhdr` and `inhdr` of a request lie, in 32 bits, and their sizes.
pub record Headers : Type 0 where
  pub outhdr_at : ℕ → ℕ
  pub inhdr_at : ℕ → ℕ
  pub outhdr_size : ℕ
  pub inhdr_size : ℕ

-- The low halves of the rings' addresses
pub record Rings : Type 0 where
  pub desc_at : ℕ
  pub avail_at : ℕ
  pub used_at : ℕ

-- `assert(p != NULL)`
abbrev pub or_stop : Option Rings → Res Rings
or_stop none = halt assertion
or_stop (some r) = ok r

-- Registers of virtio_mmio.h
abbrev pub reg_status : ℕ
reg_status = 0x70

abbrev pub reg_notify : ℕ
reg_notify = 0x50

abbrev pub reg_interrupt_status : ℕ
reg_interrupt_status = 0x60

abbrev pub reg_interrupt_ack : ℕ
reg_interrupt_ack = 0x64

abbrev pub needs_reset : ℕ
needs_reset = 64

-- The three descriptors of request `i`
unfoldable pub chain : Headers → (ℕ → Desc) → ℕ → ℕ → ℕ → ℕ → Desc
chain h desc i buf flags =
    let first : Desc = record { addr = h.outhdr_at i; len = h.outhdr_size; flags = 1; next = 1 } in
    let second : Desc = record { addr = buf % two_32; len = 512; flags = flags; next = 2 } in
    let third : Desc = record { addr = h.inhdr_at i; len = h.inhdr_size; flags = 2; next = 0 } in
    update (update (update desc (3 * i) first) (3 * i + 1) second) (3 * i + 2) third

module _ {Token : Type 0} where
  abbrev pub mmio_read32 : Device → Driver Token → ℕ → ℕ
  mmio_read32 dev d offset = dev.read d.writes offset

  abbrev pub mmio_write32 : Driver Token → ℕ → ℕ → Driver Token
  mmio_write32 d offset value = record d { writes = (offset, value) ∷ d.writes }

  abbrev pub current_session : Driver Token → Session Token
  current_session d = d.sessions d.session

  abbrev pub set_session : Driver Token → Session Token → Driver Token
  set_session d s = record d { sessions = update d.sessions d.session s }

  unfoldable pub vblk_status : Device → Driver Token → ℕ → ℕ × Driver Token
  vblk_status dev d cookie =
      let d1 = record d { session = cookie } in
      if (current_session d1).init == 0
      then (1, d1)
      else (if not (bit_and (mmio_read32 dev d1 reg_status) needs_reset == 0)
          then (1, d1)
          else (0, d1))

  -- The loop for a free slot, from slot `i` on.
  unfoldable pub free_slot : ℕ → ℕ → (ℕ → Req Token) → ℕ
  free_slot zero i reqs = i
  free_slot (suc n) i reqs =
      let later = free_slot n (i + 1) reqs in if (reqs i).used == 0 then i else later

  -- An access of `reqs` through a null capability traps.
  unfoldable pub find_slot : Session Token → Res ℕ
  unfolding free_slot
  find_slot s =
      if s.req_nb == 0
      then ok 0
      else (if s.reqs_null then halt trap else ok (free_slot s.req_nb 0 s.reqs))

  -- `queue->avail->ring[queue->avail->idx] = 3*i`, and the index moved on; the allocation ends
  -- after entry `num`.
  unfoldable pub offer : Session Token → ℕ → Res (Session Token)
  offer s i =
      if leb s.avail_idx s.num
      then ok (record s {
        avail_ring = update s.avail_ring s.avail_idx (3 * i);
        avail_idx = (s.avail_idx + 1) % 2 ^ 16;
      })
      else halt overrun

  unfoldable pub vblk_send_done : Driver Token → Token → ℕ → Driver Token
  vblk_send_done d null i = record d {
    expected_session = d.session;
    expected_i = i;
    sync_token = null;
  }

  -- `vblk_read` and `vblk_write` differ in the request's type and the buffer's flags.
  unfoldable pub vblk_rw :
      Device → Headers → Token → Driver Token → ℕ → ℕ → ℕ → ℕ → ℕ → Res (ℕ × Driver Token)
  unfolding find_slot chain offer vblk_send_done
  vblk_rw dev h null d0 cookie type flags buf sector = do
    let d = record d0 { session = cookie }
    assert (bit_and (mmio_read32 dev d reg_status) needs_reset == 0)
    let s = current_session d
    i ← find_slot s
    assert (ltb i s.req_nb)
    let req : Req Token = record {
      used = 1;
      sync_token = d.sync_token;
      type = type;
      sector = sector;
    }
    s1 ← offer (record s { reqs = update s.reqs i req; desc = chain h s.desc i buf flags }) i
    ok (0, vblk_send_done (mmio_write32 (set_session d s1) reg_notify 0) null i)

  unfoldable pub vblk_read :
      Device → Headers → Token → Driver Token → ℕ → ℕ → ℕ → Res (ℕ × Driver Token)
  unfolding vblk_rw
  vblk_read dev h null d cookie buf sector = vblk_rw dev h null d cookie 0 3 buf sector

  unfoldable pub vblk_write :
      Device → Headers → Token → Driver Token → ℕ → ℕ → ℕ → Res (ℕ × Driver Token)
  unfolding vblk_rw
  vblk_write dev h null d cookie buf sector = vblk_rw dev h null d cookie 1 1 buf sector

  unfoldable pub vblk_rw_ret : Device → Driver Token → ℕ → Res (ℕ × Driver Token)
  vblk_rw_ret dev d i = do
    let s = current_session d
    assert (dev.used_id (s.last_used_idx % s.num) == i)
    assert (ltb 0 (dev.used_len (s.last_used_idx % s.num)))
    status ← if s.reqs_null then halt trap else ok (dev.req_status i)
    assert (status == 0)
    let req = record (s.reqs i) { used = 0 }
    let d1 =
        set_session d
          (record s { last_used_idx = (s.last_used_idx + 1) % 2 ^ 16; reqs = update s.reqs i req })
    assert (mmio_read32 dev d1 reg_interrupt_status == 1)
    let d2 = mmio_write32 d1 reg_interrupt_ack 1
    assert (mmio_read32 dev d2 reg_interrupt_status == 0)
    ok (0, d2)

  unfoldable pub vblk_interrupt : Device → Driver Token → Res (ℕ × Driver Token)
  vblk_interrupt dev d0 = do
    let d = record d0 { session = d0.expected_session }
    (ret, d1) ← vblk_rw_ret dev d d.expected_i
    let token = ((d1.sessions d1.expected_session).reqs d1.expected_i).sync_token
    ok (ret, record d1 { sync_token = token; irq_enabled = true })

  -- The capacity in the configuration space, a number of 64 bits
  unfoldable pub vblk_size : (List (ℕ × ℕ) → ℕ) → Driver Token → ℕ → ℕ × Driver Token
  vblk_size capacity d cookie = let d1 = record d { session = cookie } in (capacity d1.writes, d1)
