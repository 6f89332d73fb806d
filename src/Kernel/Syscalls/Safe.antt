-- ===== src/Kernel/Syscalls/Safe.antt =====
-- System calls that change the kernel: interrupts and revocation.
use cherios.Base.{ℕ, ◌≡◌, ◌≢◌, Bool-cases, ◌⊎◌, inl, inr, Res, ok, ◌==◌, ltb, update, arith}
use cherios.Kernel.Msg.{minus_one}
use cherios.Kernel.State.{set_status, revoked, is_dead, Kernel}
use cherios.Kernel.Inv.{IsSound, IsRunning, Contained, agree, Agree-IsSound}
use cherios.Kernel.Act.{revoke_aid}
use cherios.Kernel.Ccall.Deliver.{reframed-IsRunning}
use cherios.Kernel.Interrupts.{set_bit, kernel_interrupt_register, kernel_interrupt_enable}
use cherios.Kernel.Syscalls.{return_v0}

module _ {Cap : Type 0} where
  -- Registering for an interrupt fails, or notes its owner.
  register-cases :
      (k : Kernel Cap) (number : ℕ)
      → number ≢ 7
      → (kernel_interrupt_register k number ≡ ok (minus_one, k))
        ⊎ (kernel_interrupt_register k number
            ≡ ok (0, record k { int_child = update k.int_child number k.curr_act }))
  unfolding kernel_interrupt_register
  register-cases k number ne = elim (Bool-cases (ltb number 7)) [
    | inr past ↦ inl (ground arith)
    | inl low ↦ elim (Bool-cases (k.int_child number == 0)) [
      | inl unowned ↦ inr (ground arith)
      | inr owned ↦ inl (ground arith)
    ]
  ]

  enable-cases :
      (k : Kernel Cap) (number : ℕ)
      → number ≢ 7
      → (kernel_interrupt_enable k number ≡ ok (minus_one, k))
        ⊎ (kernel_interrupt_enable k number ≡ ok (0, record k { im = set_bit k.im number }))
  unfolding kernel_interrupt_enable
  enable-cases k number ne = elim (Bool-cases (ltb number 7)) [
    | inr past ↦ inl (ground arith)
    | inl low ↦ elim (Bool-cases (k.int_child number == k.curr_act)) [
      | inl own ↦ inr (ground arith)
      | inr other ↦ inl (ground arith)
    ]
  ]

  -- Two outcomes of a call that leave the same activation running.
  either-Contained :
      (k k1 : Kernel Cap) (r : Res (ℕ × Kernel Cap)) (m n : ℕ)
      → IsRunning k
      → IsRunning k1
      → (r ≡ ok (m, k)) ⊎ (r ≡ ok (n, k1))
      → Contained (return_v0 r)
  either-Contained k k1 r m n v w (inl e) = rw e (reframed-IsRunning k _ v)
  either-Contained k k1 r m n v w (inr e) = rw e (reframed-IsRunning k1 _ w)

  owned-IsRunning :
      (k : Kernel Cap) (number : ℕ)
      → IsRunning k
      → IsRunning (record k { int_child = update k.int_child number k.curr_act })
  owned-IsRunning k number v = record {
    sound = record {
      ready = record {
        slot = v.sound.ready.slot;
        listed = v.sound.ready.listed;
        present = v.sound.ready.present;
        known = v.sound.ready.known;
        room = v.sound.ready.room;
      };
      mail = record {
        rings = v.sound.mail.rings;
        quiet = v.sound.mail.quiet;
        held = v.sound.mail.held;
      };
      wired = λ i h.
          ground (arith, v.sound.wired i, v.sound.ready.known k.curr_act (ground (arith, v.runs)));
    };
    framed = v.framed;
    runs = v.runs;
  }

  pub register-Contained :
      (k : Kernel Cap) (number : ℕ)
      → IsRunning k
      → number ≢ 7
      → Contained (return_v0 (kernel_interrupt_register k number))
  register-Contained k number v ne =
      either-Contained k _ _ minus_one 0 v (owned-IsRunning k number v) (register-cases k number ne)

  pub enable-Contained :
      (k : Kernel Cap) (number : ℕ)
      → IsRunning k
      → number ≢ 7
      → Contained (return_v0 (kernel_interrupt_enable k number))
  enable-Contained k number v ne =
      let w : IsRunning (record k { im = set_bit k.im number }) = record {
        sound = Agree-IsSound (agree k) v.sound;
        framed = v.framed;
        runs = v.runs;
      } in
      either-Contained k _ _ minus_one 0 v w (enable-cases k number ne)

  revoked-IsSound : (k : Kernel Cap) (a : ℕ) → IsSound k → IsSound (set_status k a revoked)
  revoked-IsSound k a v = record {
    ready = record {
      slot = v.ready.slot;
      listed = λ i h. ground (arith, v.ready.listed i h);
      present = λ b h. ground (arith, v.ready.present b);
      known = λ b h. ground (arith, v.ready.known b);
      room = v.ready.room;
    };
    mail = record {
      rings = λ b h. ground (arith, v.mail.rings b h);
      quiet = λ b h. ground (arith, v.mail.quiet b);
      held = λ b h. ground (arith, v.mail.held b);
    };
    wired = v.wired;
  }

  pub revoke-Contained :
      (k : Kernel Cap) (a : ℕ) → IsRunning k → Contained (return_v0 (revoke_aid k a))
  unfolding revoke_aid
  revoke-Contained k a v = elim (Bool-cases (is_dead (k.acts a).status)) [
    | inl gone ↦ rw gone (reframed-IsRunning k _ v)
    | inr here ↦
        let w : IsRunning (set_status k a revoked) = record {
          sound = revoked-IsSound k a v.sound;
          framed = v.framed;
          runs = ground (arith, v.runs);
        } in
        rw here (reframed-IsRunning (set_status k a revoked) _ w)
  ]
