-- ===== src/Kernel/Ccall/Deliver.antt =====
-- The steps of CCall in kernel/src/ccall.c, taken in a running kernel.
use cherios.Base.{
  ℕ, ◌+◌, ◌%◌, ◌<◌, ◌≡◌, refl, ◌≢◌, Bool-cases, Option-cases, inl, inr, Res, ok, halt, trap, ◌>>=◌,
  update, ◌==◌, if◌then◌else◌, arith, ◌⊎◌, two_32,
}
use cherios.Cheri.{Cheri}
use cherios.Kernel.State.{Kernel, sync_block, current, set_current}
use cherios.Kernel.Msg.{msg_push}
use cherios.Kernel.Msg.Ring.{count}
use cherios.Kernel.Msg.Fifo.{msg_push-full, msg_push-eq, pushed, pushed-IsSound}
use cherios.Kernel.Ready.Inv.{a2d-eq}
use cherios.Kernel.Inv.{IsSound, IsRunning, Resumes, agree, Agree-IsSound}
use cherios.Kernel.Sched.Resume.{sched_reschedule-Resumes}
use cherios.Kernel.Act.Wait.{left-IsSound, act_wait-Resumes}
use cherios.Kernel.Env.{otype_sync}
use cherios.Kernel.Ccall.{
  Mode, token_offset, send, send_switch, sync_call, token_for, after_push, on_full,
}

module _ {Cap : Type 0} where
  -- The registers of one activation do not touch the invariant.
  pub reframed-IsRunning :
      (k : Kernel Cap) (f : ℕ → _) → IsRunning k → IsRunning (record k { frames = f })
  reframed-IsRunning k f v = record {
    sound = Agree-IsSound (agree k) v.sound;
    framed = v.framed;
    runs = v.runs;
  }

  pub pushed-IsRunning :
      (k : Kernel Cap) (dest : ℕ) (m : _)
      → IsRunning k
      → 0 < dest
      → dest < k.next_act
      → count (k.queues dest) ≢ 15
      → IsRunning (pushed k dest m)
  pushed-IsRunning k dest m v pos lt room = record {
    sound = pushed-IsSound k dest m v.sound pos lt room;
    framed = ground (arith, v.framed);
    runs = ground (arith, v.runs);
  }

module _ (c : Cheri) where
  open c use {Cap}

  after_push-Resumes :
      (k : Kernel Cap) (mode : Mode) (dest : ℕ) → IsRunning k → Resumes (after_push c k mode dest)
  unfolding after_push
  after_push-Resumes k sync_call dest v =
      rw (a2d-eq k k.curr_act sync_block v.sound.ready (ground arith) refl) (
        sched_reschedule-Resumes _ dest
          (left-IsSound k k.curr_act sync_block v.sound (ground arith) refl (λ w. cc)))
  after_push-Resumes k send_switch dest v = act_wait-Resumes k k.curr_act dest v.sound v.runs
  after_push-Resumes k send dest v = v

  -- The kernel with a new token counted and noted for the caller.
  abbrev pub tokened : Kernel Cap → ℕ → Kernel Cap
  tokened k a =
      let unique = (k.unique + 1) % two_32 in
      record k {
        unique = unique;
        acts = update k.acts a (record (k.acts a) { expected_reply = unique });
      }

  pub tokened-IsSound : (k : Kernel Cap) (a : ℕ) → IsSound k → IsSound (tokened k a)
  tokened-IsSound k a v = record {
    ready = record {
      slot = v.ready.slot;
      listed = λ i h. ground (arith, v.ready.listed i h);
      present = λ b h. ground (arith, v.ready.present b);
      known = λ b h. ground (arith, v.ready.known b);
      room = v.ready.room;
    };
    mail = record {
      rings = λ b h. ground (arith, v.mail.rings b h);
      quiet = λ b h. ground (arith, v.mail.quiet b);
      held = λ b h. ground (arith, v.mail.held b);
    };
    wired = λ i h. ground (arith, v.wired i);
  }

  -- What the code after `token_for` may rely on.
  pub record IsToken (k : Kernel Cap) (cb : ℕ) (k1 : Kernel Cap) : Type 0 where
    pub running : IsRunning k1
    pub next : k1.next_act ≡ k.next_act
    pub aid : (k1.acts cb).aid ≡ (k.acts cb).aid

  tokened-IsToken : (k : Kernel Cap) (cb : ℕ) → IsRunning k → IsToken k cb (tokened k k.curr_act)
  tokened-IsToken k cb v = record {
    running = record {
      sound = tokened-IsSound k k.curr_act v.sound;
      framed = v.framed;
      runs = ground (arith, v.runs);
    };
    next = refl;
    aid = ground arith;
  }

  same-IsToken : (k : Kernel Cap) (cb : ℕ) → IsRunning k → IsToken k cb k
  same-IsToken k cb v = record { running = v; next = refl; aid = refl }

  -- A trap, or a token and the kernel that counts it.
  pub token_for-cases :
      (k : Kernel Cap) (mode : Mode) (cb : ℕ)
      → IsRunning k
      → (token_for c k mode ≡ halt trap)
        ⊎ ((t : Cap) × (k1 : Kernel Cap) × (token_for c k mode ≡ ok (t, k1)) × IsToken k cb k1)
  unfolding token_for
  token_for-cases k send cb v = inr (c.null, k, refl, same-IsToken k cb v)
  token_for-cases k send_switch cb v = inr (c.null, k, refl, same-IsToken k cb v)
  token_for-cases k sync_call cb v =
      let unique = (k.unique + 1) % two_32 in
      let root = c.set_offset c.get_default otype_sync in
      elim (Option-cases (c.set_bounds (c.and_perm c.get_default 0) 0)) [
        | inl e ↦ inl (rw e refl)
        | inr (bare, e) ↦
            elim (Option-cases (c.seal (c.set_offset bare (token_offset k.curr_act unique)) root)) [
              | inl f ↦ inl (rw (e, f) refl)
              | inr (t, f) ↦ inr (t, tokened k k.curr_act, rw (e, f) refl, tokened-IsToken k cb v)
            ]
      ]

  -- From the push on.
  unfoldable pub push_on : Kernel Cap → Mode → ℕ → Cap → Cap → Res (Kernel Cap)
  unfolding on_full after_push
  push_on k1 mode cb cs sync_token = do
    (full, k2) ← msg_push k1 (k1.acts cb).aid k1.curr_act cs sync_token
    k3 ← if full == 0 then ok k2 else on_full c k2 mode
    after_push c k3 mode (k3.acts cb).aid

  after_full :
      (k : Kernel Cap) (mode : Mode) (cb : ℕ)
      → IsRunning k
      → Resumes (on_full c k mode >>= λ k3. after_push c k3 mode (k3.acts cb).aid)
  unfolding on_full
  after_full k sync_call cb v = tt
  after_full k send_switch cb v =
      after_push-Resumes (set_current k (record (current k) { v0 = 0 })) send_switch (k.acts cb).aid
        (reframed-IsRunning k _ v)
  after_full k send cb v =
      after_push-Resumes (set_current k (record (current k) { v0 = 0 })) send (k.acts cb).aid
        (reframed-IsRunning k _ v)

  pub push_on-Resumes :
      (k : Kernel Cap) (mode : Mode) (cb : ℕ) (cs t : Cap)
      → IsRunning k
      → 0 < (k.acts cb).aid
      → (k.acts cb).aid < k.next_act
      → Resumes (push_on k mode cb cs t)
  unfolding push_on
  push_on-Resumes k mode cb cs t v pos lt =
      elim (Bool-cases (count (k.queues (k.acts cb).aid) == 15)) [
        | inl full ↦
            rw (msg_push-full k (k.acts cb).aid k.curr_act cs t v.sound lt (ground arith))
              (after_full k mode cb v)
        | inr room ↦ rw (msg_push-eq k (k.acts cb).aid k.curr_act cs t v.sound lt (ground arith)) (
            after_push-Resumes _ mode _
              (pushed-IsRunning k (k.acts cb).aid _ v pos lt (ground arith)))
      ]
