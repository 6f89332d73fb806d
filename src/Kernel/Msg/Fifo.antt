-- ===== src/Kernel/Msg/Fifo.antt =====
-- What `msg_push` and `msg_pop` do to the queues and to the kernel's invariant.
use cherios.Base.{
  ℕ, ◌<◌, ◌≡◌, refl, ◌≢◌, false, ok, [], ◌∷◌, ◌++◌, update, ◌==◌, if◌then◌else◌, arith, Bool-cases,
  ◌⊎◌, inl, inr,
}
use cherios.Kernel.State.{Kernel, Msg, Queue, schedulable, is_waiting, sched_status_of}
use cherios.Kernel.Msg.{minus_one, safe, full, message, put, msg_push}
use cherios.Kernel.Msg.Ring.{mask, IsRing, count, pending, step_slot-eq, pending-put}
use cherios.Kernel.Ready.Inv.{IsReady, entered, d2a-eq, entered-IsReady}
use cherios.Kernel.Inv.{IsMailed, IsSound}

module _ {Cap : Type 0} where
  -- The kernel with `m` written into the queue of `dest`, and then with `dest` awake.
  abbrev pub posted : Kernel Cap → ℕ → Msg Cap → Kernel Cap
  posted k dest m = record k { queues = update k.queues dest (put (k.queues dest) mask m) }

  abbrev pub pushed : Kernel Cap → ℕ → Msg Cap → Kernel Cap
  pushed k dest m =
      if is_waiting (sched_status_of k dest)
      then entered (posted k dest m) dest schedulable
      else posted k dest m

  posted-IsReady : {k : Kernel Cap} (dest : ℕ) (m : Msg Cap) → IsReady k → IsReady (posted k dest m)
  posted-IsReady dest m v = record {
    slot = v.slot;
    listed = v.listed;
    present = v.present;
    known = v.known;
    room = v.room;
  }

  full-eq : (q : Queue Cap) → IsRing q → full q mask ≡ ok (count q == 15)
  unfolding full
  full-eq q v = ground (arith, step_slot-eq q.end v.end_in)

  pub msg_push-full :
      (k : Kernel Cap) (dest src : ℕ) (i t : Cap)
      → IsSound k
      → dest < k.next_act
      → count (k.queues dest) ≡ 15
      → msg_push k dest src i t ≡ ok (minus_one, k)
  unfolding msg_push safe
  msg_push-full k dest src i t v lt c =
      ground (arith, (v.mail.rings dest lt).0, full-eq (k.queues dest) (v.mail.rings dest lt).1)

  pub msg_push-eq :
      (k : Kernel Cap) (dest src : ℕ) (i t : Cap)
      → IsSound k
      → dest < k.next_act
      → count (k.queues dest) ≢ 15
      → msg_push k dest src i t ≡ ok (0, pushed k dest (message (k.frames src) i t))
  unfolding msg_push safe
  msg_push-eq k dest src i t v lt c = ground (
    arith,
    (v.mail.rings dest lt).0,
    full-eq (k.queues dest) (v.mail.rings dest lt).1,
    d2a-eq (posted k dest (message (k.frames src) i t)) dest schedulable
        (posted-IsReady dest (message (k.frames src) i t) v.ready) refl,
  )

  -- A message has come into the queue, so it is not empty.
  put-IsRing :
      (q : Queue Cap) (m : Msg Cap)
      → IsRing q
      → count q ≢ 15
      → IsRing (put q mask m) × ((put q mask m).start ≢ (put q mask m).end)
  unfolding put
  put-IsRing q m v c = ground (arith, step_slot-eq q.end v.end_in)

  pushed-IsReady :
      (k : Kernel Cap) (dest : ℕ) (m : Msg Cap)
      → IsReady k
      → 0 < dest
      → dest < k.next_act
      → IsReady (pushed k dest m)
  pushed-IsReady k dest m v pos lt = elim (Bool-cases (is_waiting (sched_status_of k dest))) [
    | inl w ↦
        rw w (entered-IsReady dest schedulable (posted-IsReady dest m v) (ground arith) refl pos lt)
    | inr a ↦ rw a (posted-IsReady dest m v)
  ]

  pushed-IsMailed :
      (k : Kernel Cap) (dest : ℕ) (m : Msg Cap)
      → IsMailed k
      → dest < k.next_act
      → count (k.queues dest) ≢ 15
      → IsMailed (pushed k dest m)
  pushed-IsMailed k dest m v lt c =
      let ring = put-IsRing (k.queues dest) m (v.rings dest lt).1 c in
      record {
        rings = λ a h. ground (arith, v.rings a, ring);
        quiet = λ a h. ground (arith, v.quiet a, ring);
        held = λ a h. ground (arith, v.held a, ring);
      }

  pub pushed-IsSound :
      (k : Kernel Cap) (dest : ℕ) (m : Msg Cap)
      → IsSound k
      → 0 < dest
      → dest < k.next_act
      → count (k.queues dest) ≢ 15
      → IsSound (pushed k dest m)
  pushed-IsSound k dest m v pos lt c = record {
    ready = pushed-IsReady k dest m v.ready pos lt;
    mail = pushed-IsMailed k dest m v.mail lt c;
    wired = λ i h. ground (arith, v.wired i);
  }

  -- What the client of `msg_push` may rely on.
  pub record IsPosted (k k' : Kernel Cap) (dest : ℕ) (m : Msg Cap) : Type 0 where
    pub sound : IsSound k'
    pub last : pending (k'.queues dest) ≡ pending (k.queues dest) ++ m ∷ []
    pub awake : is_waiting (sched_status_of k' dest) ≡ false
    pub elsewhere : (a : ℕ) → a ≢ dest → (k'.queues a ≡ k.queues a) × (k'.acts a ≡ k.acts a)

  pushed-queue :
      (k : Kernel Cap) (dest : ℕ) (m : Msg Cap)
      → (pushed k dest m).queues dest ≡ put (k.queues dest) mask m
  pushed-queue k dest m = ground arith

  pushed-IsPosted :
      (k : Kernel Cap) (dest : ℕ) (m : Msg Cap)
      → IsSound k
      → 0 < dest
      → dest < k.next_act
      → count (k.queues dest) ≢ 15
      → IsPosted k (pushed k dest m) dest m
  pushed-IsPosted k dest m v pos lt c = record {
    sound = pushed-IsSound k dest m v pos lt c;
    last =
        rw (pushed-queue k dest m)
          (pending-put (k.queues dest) m (v.mail.rings dest lt).1 (omega arith));
    awake = ground arith;
    elsewhere = λ a h. ground arith;
  }

  -- In a sound kernel `msg_push` to an activation that exists either finds 15 messages in the
  -- queue, returns -1 and changes nothing; or returns 0 with the caller's message the last of the
  -- queue, the receiver not waiting any more, the other activations and their queues as they were,
  -- and the kernel sound.
  pub msg_push-IsPosted :
      (k : Kernel Cap) (dest src : ℕ) (i t : Cap)
      → IsSound k
      → 0 < dest
      → dest < k.next_act
      → ((count (k.queues dest) ≡ 15) × (msg_push k dest src i t ≡ ok (minus_one, k)))
        ⊎ ((k' : Kernel Cap) × (msg_push k dest src i t ≡ ok (0, k'))
            × IsPosted k k' dest (message (k.frames src) i t))
  msg_push-IsPosted k dest src i t v pos lt = elim (Bool-cases (count (k.queues dest) == 15)) [
    | inl e ↦ inl (ground arith, msg_push-full k dest src i t v lt (ground arith))
    | inr ne ↦
        let c : count (k.queues dest) ≢ 15 = ground arith in
        inr (
          pushed k dest (message (k.frames src) i t),
          msg_push-eq k dest src i t v lt c,
          pushed-IsPosted k dest (message (k.frames src) i t) v pos lt c,
        )
  ]
