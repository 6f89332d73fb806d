-- ===== src/Virtio/Lifetime.antt =====
-- How many requests a session of virtio-blk/src/virtio_blk.c serves.
use cherios.Base.{
  subst, false, ℕ, ◌+◌, ◌≤◌, ◌<◌, ◌≡◌, ◌⊎◌, inl, inr, refl, bit_and, List, [], ◌∷◌, length, Res, ok,
  halt, overrun, ◌>>=◌, ◌∙◌, arith, Bool-cases, leb,
}
use cherios.Virtio.{
  Driver, Device, Headers, reg_status, reg_notify, reg_interrupt_status, reg_interrupt_ack,
  needs_reset, vblk_rw, vblk_interrupt,
}
use cherios.Virtio.Requests.{vblk_rw-IsServed, vblk_rw-overrun}

-- A device that works, and carries out each request before its interrupt.
pub record IsWorking (dev : Device) : Type 0 where
  pub works : (writes : List (ℕ × ℕ)) → bit_and (dev.read writes reg_status) needs_reset ≡ 0
  pub id : (slot : ℕ) → dev.used_id slot ≡ 0
  pub len : (slot : ℕ) → 0 < dev.used_len slot
  pub good : dev.req_status 0 ≡ 0
  pub raised :
      (writes : List (ℕ × ℕ)) → dev.read ((reg_notify, 0) ∷ writes) reg_interrupt_status ≡ 1
  pub lowered :
      (writes : List (ℕ × ℕ)) → dev.read ((reg_interrupt_ack, 1) ∷ writes) reg_interrupt_status ≡ 0

-- A client's token, the request's type, the buffer's flags and address, and the sector
pub record Request (Token : Type 0) : Type 0 where
  pub token : Token
  pub type : ℕ
  pub flags : ℕ
  pub buf : ℕ
  pub sector : ℕ

module _ {Token : Type 0} where
  module _ (dev : Device) (h : Headers) (null : Token) (cookie : ℕ) where
    -- A request and the interrupt that ends it
    pub serve : Driver Token → Request Token → Res (Driver Token)
    serve d r = do
      (ret, waits) ←
          vblk_rw dev h null (record d { sync_token = r.token }) cookie r.type r.flags r.buf
            r.sector
      (ret', ends) ← vblk_interrupt dev waits
      ok ends

    -- Requests one after the other
    unfoldable pub serve_all : Driver Token → List (Request Token) → Res (Driver Token)
    unfolding serve
    serve_all d [] = ok d
    serve_all d (r ∷ rs) = do d' ← serve d r; serve_all d' rs

    -- The session after `n` requests since `vblk_init`, with the requests' memory and none open
    pub record HasServed (n : ℕ) (d : Driver Token) : Type 0 where
      pub one_slot : (d.sessions cookie).req_nb ≡ 1
      pub has_reqs : (d.sessions cookie).reqs_null ≡ false
      pub is_free : ((d.sessions cookie).reqs 0).used ≡ 0
      pub num : (d.sessions cookie).num ≡ 3
      pub index : (d.sessions cookie).avail_idx ≡ n

    serve-HasServed :
        (n : ℕ) (d : Driver Token) (r : Request Token)
        → IsWorking dev
        → HasServed n d
        → n ≤ 3
        → (d' : Driver Token) × (serve d r ≡ ok d') × HasServed (n + 1) d'
    unfolding serve
    serve-HasServed n d r w v low =
        let d0 = record d { sync_token = r.token } in
        let (ends, asked, told, served) =
          vblk_rw-IsServed h null dev dev d0 cookie r.type r.flags r.buf r.sector (w.works _)
            (record {
              one_slot = v.one_slot;
              has_reqs = v.has_reqs;
              is_free = v.is_free;
              room = omega (arith, v.index, v.num);
            })
            (record {
              id = w.id _;
              len = w.len _;
              good = w.good;
              raised = w.raised _;
              lowered = w.lowered _;
            }) in
        (
          ends,
          rw (asked, told) refl,
          record {
            one_slot = served.slots ∙ v.one_slot;
            has_reqs = served.has_reqs ∙ v.has_reqs;
            is_free = served.slot_free;
            num = served.num ∙ v.num;
            index = omega (arith, served.index, v.index);
          },
        )

    serve-overrun :
        (d : Driver Token) (r : Request Token)
        → IsWorking dev
        → HasServed 4 d
        → serve d r ≡ halt overrun
    unfolding serve
    serve-overrun d r w v =
        rw
          (vblk_rw-overrun h null dev (record d { sync_token = r.token }) cookie r.type r.flags
            r.buf r.sector (w.works _) v.one_slot v.has_reqs v.is_free
            (omega (arith, v.index, v.num)))
          refl

    -- What comes of a list of requests, `n` having been served before.
    abbrev pub Served : ℕ → Driver Token → List (Request Token) → Type 0
    Served n d rs =
        ((n + length rs ≤ 4)
          × ((d' : Driver Token) × (serve_all d rs ≡ ok d') × HasServed (n + length rs) d'))
        ⊎ ((4 < n + length rs) × (serve_all d rs ≡ halt overrun))

    serve_all-later :
        (n : ℕ) (d d' : Driver Token) (r : Request Token) (rs : List (Request Token))
        → serve d r ≡ ok d'
        → Served (n + 1) d' rs
        → Served n d (r ∷ rs)
    unfolding serve_all
    serve_all-later n d d' r rs e (inl (short, (ends, done, v))) =
        inl (omega (arith, short), (ends, rw e done, subst (λ m. HasServed m ends) (omega arith) v))
    serve_all-later n d d' r rs e (inr (long, done)) = inr (omega (arith, long), rw e done)

    -- A session that `vblk_init` has made, with memory for its requests, serves four requests and no
    -- more: on a working device a list of at most four is carried out, with no request left open,
    -- and a longer one is written out of bounds; `n` of them may have been served before.
    pub serve_all-Served :
        (n : ℕ) (d : Driver Token) (rs : List (Request Token))
        → IsWorking dev
        → HasServed n d
        → n ≤ 4
        → Served n d rs
    unfolding serve_all
    serve_all-Served n d [] w v low =
        inl (omega (arith, low), (d, refl, subst (λ m. HasServed m d) (omega arith) v))
    serve_all-Served n d (r ∷ rs) w v low = elim (Bool-cases (leb n 3)) [
      | inl room ↦
          let (d', e, v') = serve-HasServed n d r w v (ground arith) in
          serve_all-later n d d' r rs e (serve_all-Served (n + 1) d' rs w v' (ground arith))
      | inr full ↦
          let four : n ≡ 4 = ground arith in
          inr (
            ground (arith, four),
            rw (serve-overrun d r w (subst (λ m. HasServed m d) four v)) refl,
          )
    ]
