-- ===== src/Virtio/Requests.antt =====
-- What becomes of a request: it is offered to the device, and the interrupt answers its client.
use cherios.Base.{
  false, ℕ, ◌+◌, ◌%◌, ◌^◌, ◌≤◌, ◌<◌, ◌≡◌, ◌≢◌, refl, subst, ap, ◌∙◌, List, ◌∷◌, bit_and, true,
  update, ok, halt, assertion, overrun, ◌==◌, if◌then◌else◌, ltb, arith,
}
use cherios.Virtio.{
  Session, Driver, Device, Headers, reg_status, reg_notify, reg_interrupt_status, reg_interrupt_ack,
  needs_reset, find_slot, free_slot, chain, offer, vblk_send_done, vblk_rw, vblk_rw_ret,
  vblk_interrupt,
}

-- The device works.
abbrev pub Works : {Token : Type 0} → Device → Driver Token → Type 0
Works dev d = bit_and (dev.read d.writes reg_status) needs_reset ≡ 0

-- A session after `vblk_init` has one slot; here there is memory for it, it is free, and the ring
-- has room.
pub record IsIdle {Token : Type 0} (s : Session Token) : Type 0 where
  pub one_slot : s.req_nb ≡ 1
  pub has_reqs : s.reqs_null ≡ false
  pub is_free : (s.reqs 0).used ≡ 0
  pub room : s.avail_idx ≤ s.num

-- The device has carried out the request, and shows the interrupt until it is acknowledged.
pub record IsDone (dev : Device) (writes : List (ℕ × ℕ)) (slot : ℕ) : Type 0 where
  pub id : dev.used_id slot ≡ 0
  pub len : 0 < dev.used_len slot
  pub good : dev.req_status 0 ≡ 0
  pub raised : dev.read writes reg_interrupt_status ≡ 1
  pub lowered : dev.read ((reg_interrupt_ack, 1) ∷ writes) reg_interrupt_status ≡ 0

module _ {Token : Type 0} (h : Headers) (null : Token) where
  -- The session with its request offered, and the driver afterwards.
  abbrev pub offered : Session Token → Token → ℕ → ℕ → ℕ → ℕ → Session Token
  offered s token type flags buf sector = record s {
    reqs = update s.reqs 0 (record { used = 1; sync_token = token; type = type; sector = sector });
    desc = chain h s.desc 0 buf flags;
    avail_ring = update s.avail_ring s.avail_idx 0;
    avail_idx = (s.avail_idx + 1) % 2 ^ 16;
  }

  abbrev pub waiting_for : Driver Token → ℕ → ℕ → ℕ → ℕ → ℕ → Driver Token
  waiting_for d cookie type flags buf sector = record d {
    sessions =
        update d.sessions cookie (offered (d.sessions cookie) d.sync_token type flags buf sector);
    session = cookie;
    expected_session = cookie;
    expected_i = 0;
    sync_token = null;
    writes = (reg_notify, 0) ∷ d.writes;
  }

  find_slot-one :
      (s : Session Token)
      → s.req_nb ≡ 1
      → s.reqs_null ≡ false
      → find_slot s ≡ ok (if (s.reqs 0).used == 0 then 0 else 1)
  unfolding find_slot free_slot
  find_slot-one s one memory = rw (one, memory) refl

  vblk_rw-eq :
      (dev : Device) (d : Driver Token) (cookie type flags buf sector : ℕ)
      → Works dev d
      → IsIdle (d.sessions cookie)
      → vblk_rw dev h null d cookie type flags buf sector
        ≡ ok (0, waiting_for d cookie type flags buf sector)
  unfolding vblk_rw offer vblk_send_done
  vblk_rw-eq dev d cookie type flags buf sector works idle =
      rw
        (
          works,
          find_slot-one (d.sessions cookie) idle.one_slot idle.has_reqs,
          idle.one_slot,
          idle.is_free,
        )
        (ground (arith, idle.room))

  -- A second request on a session whose only slot is in use fails an assertion of the driver.
  pub vblk_rw-busy :
      (dev : Device) (d : Driver Token) (cookie type flags buf sector : ℕ)
      → Works dev d
      → (d.sessions cookie).req_nb ≡ 1
      → (d.sessions cookie).reqs_null ≡ false
      → ((d.sessions cookie).reqs 0).used ≢ 0
      → vblk_rw dev h null d cookie type flags buf sector ≡ halt assertion
  unfolding vblk_rw
  vblk_rw-busy dev d cookie type flags buf sector works one memory busy =
      rw (works, find_slot-one (d.sessions cookie) one memory, one) (ground arith)

  -- Once the ring's index has passed the number of descriptors, the next request is offered out of
  -- bounds.
  pub vblk_rw-overrun :
      (dev : Device) (d : Driver Token) (cookie type flags buf sector : ℕ)
      → Works dev d
      → (d.sessions cookie).req_nb ≡ 1
      → (d.sessions cookie).reqs_null ≡ false
      → ((d.sessions cookie).reqs 0).used ≡ 0
      → (d.sessions cookie).num < (d.sessions cookie).avail_idx
      → vblk_rw dev h null d cookie type flags buf sector ≡ halt overrun
  unfolding vblk_rw offer
  vblk_rw-overrun dev d cookie type flags buf sector works one memory is_free past =
      rw (works, find_slot-one (d.sessions cookie) one memory, one, is_free) (ground arith)

  -- The driver after that interrupt has been handled for slot 0, and with the token restored.
  abbrev acked : Driver Token → Driver Token
  acked d =
      let s = d.sessions d.session in
      record d {
        sessions = update d.sessions d.session (record s {
          last_used_idx = (s.last_used_idx + 1) % 2 ^ 16;
          reqs = update s.reqs 0 (record (s.reqs 0) { used = 0 });
        });
        writes = (reg_interrupt_ack, 1) ∷ d.writes;
      }

  abbrev answered : Driver Token → Driver Token
  answered d = record (acked (record d { session = d.expected_session })) {
    sync_token = ((d.sessions d.expected_session).reqs 0).sync_token;
    irq_enabled = true;
  }

  rw_ret-eq :
      (dev : Device) (d : Driver Token)
      → (d.sessions d.session).reqs_null ≡ false
      → let s = d.sessions d.session in
        IsDone dev d.writes (s.last_used_idx % s.num) → vblk_rw_ret dev d 0 ≡ ok (0, acked d)
  unfolding vblk_rw_ret
  rw_ret-eq dev d memory done =
      let some_bytes : ltb 0
            (dev.used_len ((d.sessions d.session).last_used_idx % (d.sessions d.session).num))
          ≡ true =
        ground (arith, done.len) in
      rw (done.id, some_bytes, memory, done.good, done.raised, done.lowered) refl

  interrupt-eq :
      (dev : Device) (d : Driver Token) (slot : ℕ)
      → d.expected_i ≡ 0
      → (d.sessions d.expected_session).reqs_null ≡ false
      → let s = d.sessions d.expected_session in
        slot ≡ s.last_used_idx % s.num
        → IsDone dev d.writes slot
        → vblk_interrupt dev d ≡ ok (0, answered d)
  unfolding vblk_interrupt
  interrupt-eq dev d slot first memory at done =
      let d1 = record d { session = d.expected_session } in
      let ret : vblk_rw_ret dev d1 d.expected_i ≡ ok (0, acked d1) =
        ap (vblk_rw_ret dev d1) first
        ∙ rw_ret-eq dev d1 memory (subst (IsDone dev d.writes) at done) in
      let token : (((acked d1).sessions d.expected_session).reqs d.expected_i).sync_token
          ≡ ((d.sessions d.expected_session).reqs 0).sync_token =
        ground (arith, first) in
      rw (ret, token) refl

  -- What a request comes to: its slot is free again and its ring entry used, and the answer goes to
  -- the token of the client that asked; between the two there is no token to answer.
  pub record IsServed (d waits ends : Driver Token) (cookie : ℕ) : Type 0 where
    pub silent : waits.sync_token ≡ null
    pub notified : waits.writes ≡ (reg_notify, 0) ∷ d.writes
    pub answers : ends.sync_token ≡ d.sync_token
    pub slot_free : ((ends.sessions cookie).reqs 0).used ≡ 0
    pub others : (other : ℕ) → other ≢ cookie → ends.sessions other ≡ d.sessions other
    pub slots : (ends.sessions cookie).req_nb ≡ (d.sessions cookie).req_nb
    pub has_reqs : (ends.sessions cookie).reqs_null ≡ (d.sessions cookie).reqs_null
    pub num : (ends.sessions cookie).num ≡ (d.sessions cookie).num
    pub index : (ends.sessions cookie).avail_idx ≡ ((d.sessions cookie).avail_idx + 1) % 2 ^ 16

  -- A read and a write of an idle session return at once, and the interrupt that ends them frees
  -- the slot and restores the client's token; no assertion fails, if the device works and has done
  -- what was asked.
  pub vblk_rw-IsServed :
      (dev later : Device) (d : Driver Token) (cookie type flags buf sector : ℕ)
      → Works dev d
      → IsIdle (d.sessions cookie)
      → let waits = waiting_for d cookie type flags buf sector in
        IsDone later waits.writes ((d.sessions cookie).last_used_idx % (d.sessions cookie).num)
        → (ends : Driver Token) × (vblk_rw dev h null d cookie type flags buf sector
            ≡ ok (0, waits))
          × (vblk_interrupt later waits ≡ ok (0, ends))
          × IsServed d waits ends cookie
  vblk_rw-IsServed dev later d cookie type flags buf sector works idle done =
      let waits = waiting_for d cookie type flags buf sector in
      (
        answered waits,
        vblk_rw-eq dev d cookie type flags buf sector works idle,
        interrupt-eq later waits _ refl (ground (arith, idle.has_reqs)) (ground arith) done,
        record {
          silent = refl;
          notified = refl;
          answers = ground arith;
          slot_free = ground arith;
          others = λ other ne. ground arith;
          slots = ground arith;
          has_reqs = ground arith;
          num = ground arith;
          index = ground arith;
        },
      )
