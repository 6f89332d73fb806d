-- ===== src/Virtio/Init.antt =====
-- `vblk_init` of virtio-blk/src/virtio_blk.c: the device is reset, identified and given its queue.
use cherios.Base.{
  ℕ, ◌^◌, bit_and, bit_or, Bool, ◌&&◌, Option, none, some, Res, ok, halt, assertion, assert, ◌>>=◌,
  ◌>>◌, ◌==◌, leb,
}
use cherios.Virtio.{
  Session, Driver, Device, Rings, or_stop, reg_status, needs_reset, mmio_read32, mmio_write32,
  current_session, set_session,
}

module _ {Token : Type 0} where
  abbrev pub mmio_set32 : Device → Driver Token → ℕ → ℕ → Driver Token
  mmio_set32 dev d offset value = mmio_write32 d offset (bit_or value (mmio_read32 dev d offset))

  -- The checks of the device's identity
  unfoldable pub identified : Device → Driver Token → Bool
  identified dev d =
      (mmio_read32 dev d 0x0 == 0x74726976)
      && (mmio_read32 dev d 0x4 == 1)
      && (mmio_read32 dev d 0x8 == 2)
      && (mmio_read32 dev d 0xc == 0x554d4551)

  -- INIT2 to INIT4
  unfoldable pub negotiate : Device → Driver Token → Driver Token
  negotiate dev d =
      let d1 = mmio_set32 dev (mmio_set32 dev d reg_status 1) reg_status 2 in
      let d2 = mmio_write32 d1 0x14 0 in
      let features = mmio_read32 dev d2 0x10 in
      mmio_write32 (mmio_write32 d2 0x24 0) 0x20 (bit_and features (2 ^ 4))

  -- The session that INIT7 makes, with its memory cleared; the `calloc` of its requests is not
  -- checked, and `reqs_null` says that it has given NULL.
  unfoldable pub fresh_session : Token → Bool → Session Token → Session Token
  fresh_session null reqs_null s = record s {
    req_nb = 1;
    reqs_null = reqs_null;
    reqs = λ i. record { used = 0; sync_token = null; type = 0; sector = 0 };
    num = 3;
    desc = λ i. record { addr = 0; len = 0; flags = 0; next = 0 };
    avail_idx = 0;
    avail_ring = λ i. 0;
    last_used_idx = 0;
  }

  -- INIT7 after the allocations, and INIT8
  unfoldable pub start_queue : Device → Rings → Driver Token → Res (Driver Token)
  start_queue dev r d = do
    let d1 = mmio_write32 d 0x30 0
    assert (leb (current_session d1).num (mmio_read32 dev d1 0x34))
    let d2 = mmio_write32 d1 0x38 (current_session d1).num
    let d3 =
        mmio_write32 (mmio_write32 (mmio_write32 d2 0x80 r.desc_at) 0x90 r.avail_at) 0xA0 r.used_at
    let d4 = mmio_set32 dev (mmio_write32 d3 0x44 1) reg_status 4
    assert (bit_and (mmio_read32 dev d4 reg_status) needs_reset == 0)
    ok (set_session d4 (record (current_session d4) { init = 1 }))

  -- What `calloc` gives: `reqs_null` says whether the requests' memory is NULL, and `rings` is
  -- `none` if the memory of a ring is.
  unfoldable pub vblk_init :
      Device → Token → Bool → Option Rings → Driver Token → Option ℕ → Res (ℕ × Driver Token)
  vblk_init dev null reqs_null rings d0 none = halt assertion
  vblk_init dev null reqs_null rings d0 (some cookie) = do
    let d = mmio_write32 (record d0 { session = cookie }) reg_status 0
    let d1 = set_session d (record (current_session d) { init = 0 })
    assert (identified dev d1)
    let d2 = negotiate dev d1
    r ← or_stop rings
    d3 ← start_queue dev r (set_session d2 (fresh_session null reqs_null (current_session d2)))
    ok (0, d3)
