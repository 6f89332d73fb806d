-- ===== src/Kernel/Act/Start.antt =====
-- The start of the kernel's activations: `act_init` in kernel/src/act.c.
use cherios.Base.{
  ◌%◌, ◌^◌, ◌⊎◌, inl, inr, false, Bool-cases, Option, none, [], Res, halt, trap, ◌>>=◌, leb, two_32,
  ℕ, ◌+◌, ◌<◌, ◌≡◌, refl, ap, sym, subst, ◌∙◌, >>=-eq-ok, some, ok, or_trap, arith,
}
use cherios.Cheri.{Cheri, Laws}
use cherios.Kernel.State.{max_activations, Kernel, Frame, waiting, runnable, sched_status_of}
use cherios.Kernel.Ready.{sched_d2a}
use cherios.Kernel.Ready.Inv.{entered, d2a-eq, entered-IsReady}
use cherios.Kernel.Inv.{IsSound, IsRunning, agree, Agree-IsSound}
use cherios.Kernel.Env.{Layout, Fits, Text, vcap, kernel_seal}
use cherios.Kernel.Act.{
  act_name, act_create_ref, act_create_ctrl_ref, act_register, act_init, act_init_user,
  without_acts, retired,
}
use cherios.Kernel.Act.Life.{IsNew, act_register-IsNew}

module _ {Cap : Type 0} where
  -- The static variables when the kernel starts: all zero.
  pub record IsBlank (k : Kernel Cap) : Type 0 where
    pub none_listed : k.squeue_a_end ≡ 0
    pub waits : (a : ℕ) → sched_status_of k a ≡ waiting
    pub quiet : (a : ℕ) → (k.queues a).start ≡ (k.queues a).end
    pub unwired : (i : ℕ) → k.int_child i ≡ 0

  blank-IsSound :
      (k : Kernel Cap) (default_id : Cap)
      → IsBlank k
      → IsSound (record k { act_default_id = default_id; next_act = 0 })
  blank-IsSound k default_id v = record {
    ready = record {
      slot = λ i h. omega (arith, v.none_listed);
      listed = λ i h. absurd (omega (arith, v.none_listed));
      present = λ a h. ground (arith, v.waits a);
      known = λ a h. ground (arith, v.waits a);
      room = omega arith;
    };
    mail = record {
      rings = λ a h. absurd (omega arith);
      quiet = λ a h. v.quiet a;
      held = λ a h. ground (arith, v.waits a);
    };
    wired = λ i h. absurd (h (v.unwired i));
  }

  retired-IsSound :
      (k : Kernel Cap)
      → IsSound k
      → k.next_act ≡ 1
      → sched_status_of k 0 ≡ waiting
      → IsSound (record (retired k) { curr_act = 1; next_act = 1 })
  retired-IsSound k v one w = record {
    ready = record {
      slot = v.ready.slot;
      listed = λ i h. ground (arith, v.ready.listed i h, v.ready.known (k.squeue_a i));
      present = λ a h. ground (arith, v.ready.present a);
      known = λ a h. ground (arith, v.ready.known a);
      room = omega arith;
    };
    mail = record {
      rings = λ a h. ground (arith, v.mail.rings a);
      quiet = λ a h. ground (arith, v.mail.quiet a);
      held = λ a h. ground (arith, v.mail.held a);
    };
    wired = λ i h. ground (arith, v.wired i);
  }

  -- An activation that waits becomes runnable without a message.
  woken-IsSound :
      (k : Kernel Cap) (a : ℕ)
      → IsSound k
      → sched_status_of k a ≡ waiting
      → 0 < a
      → a < k.next_act
      → IsSound (entered k a runnable)
  woken-IsSound k a v w pos lt = record {
    ready = entered-IsReady a runnable v.ready (ground arith) refl pos lt;
    mail = record {
      rings = λ i h. ground (arith, v.mail.rings i h);
      quiet = λ i h. ground (arith, v.mail.quiet i);
      held = λ i h. ground (arith, v.mail.held i);
    };
    wired = λ i h. ground (arith, v.wired i);
  }

  -- The kernel at the end of `act_init`.
  abbrev pub started : Kernel Cap → Kernel Cap
  started k = entered (record k { framep = k.curr_act }) k.curr_act runnable

  started-IsRunning :
      (k : Kernel Cap)
      → IsSound k
      → k.next_act ≡ 2
      → k.curr_act ≡ 1
      → sched_status_of k k.curr_act ≡ waiting
      → IsRunning (started k)
  started-IsRunning k v two one w = record {
    sound =
        woken-IsSound (record k { framep = k.curr_act }) k.curr_act (Agree-IsSound (agree k) v) w
          (omega arith) (omega arith);
    framed = refl;
    runs = ground arith;
  }

  ok_injective : {a b : Kernel Cap} → ok a ≡ ok b → a ≡ b
  ok_injective e = cc

  start-eq :
      (k : Kernel Cap)
      → IsSound k
      → sched_d2a (record k { framep = k.curr_act }) k.curr_act runnable ≡ ok (started k)
  start-eq k v =
      d2a-eq (record k { framep = k.curr_act }) k.curr_act runnable
        (Agree-IsSound (agree k) v).ready refl

-- A result, or a trap of a capability instruction; nothing else.
data OnlyTraps {A : Type 0} : Res A → Type 0 where
  returns : (x : A) → OnlyTraps (ok x)
  traps : OnlyTraps (halt trap)

bind-OnlyTraps :
    {A B : Type 0} (r : Res A) (next : A → Res B)
    → OnlyTraps r
    → ((x : A) → OnlyTraps (next x))
    → OnlyTraps (r >>= next)
bind-OnlyTraps r next (returns x) w = w x
bind-OnlyTraps r next traps w = traps

or_trap-OnlyTraps : {A : Type 0} (o : Option A) → OnlyTraps (or_trap o)
or_trap-OnlyTraps none = traps
or_trap-OnlyTraps (some x) = returns x

OnlyTraps-cases : {A : Type 0} (r : Res A) → OnlyTraps r → (r ≡ halt trap) ⊎ ((x : A) × (r ≡ ok x))
OnlyTraps-cases r (returns x) = inr (x, refl)
OnlyTraps-cases r traps = inl refl

module _ (c : Cheri) (l : Layout) where
  open c use {Cap}

  -- A name whose length is no negative `int`, as those of the two literals are
  abbrev pub IsShort : Text c → Type 0
  IsShort name = c.get_len name.cap % two_32 < 2 ^ 31

  name-OnlyTraps : (name : Text c) → IsShort name → OnlyTraps (act_name c name)
  unfolding act_name
  name-OnlyTraps name lt =
      let short : leb (2 ^ 31) (c.get_len name.cap % two_32) ≡ false = ground arith in
      elim (Bool-cases (vcap c name.cap 1 4)) [
        | inl good ↦ rw (good, short) (returns _)
        | inr bad ↦ rw bad (returns [])
      ]

  register-OnlyTraps :
      (k : Kernel Cap) (frame : Option (Frame Cap)) (name : Text c)
      → k.next_act < max_activations
      → IsShort name
      → OnlyTraps (act_register c l k frame name)
  unfolding act_register act_create_ref act_create_ctrl_ref kernel_seal
  register-OnlyTraps k frame name room short =
      let free : leb max_activations k.next_act ≡ false = ground arith in
      rw free (
        bind-OnlyTraps (act_name c name) _ (name-OnlyTraps name short) (λ text.
          bind-OnlyTraps (or_trap frame) _ (or_trap-OnlyTraps frame) (λ regs.
            bind-OnlyTraps (act_create_ref c l k.next_act) _ (or_trap-OnlyTraps _) (λ reference.
              bind-OnlyTraps (kernel_seal c k.act_default_id k.next_act) _ (or_trap-OnlyTraps _)
                (λ id.
                  bind-OnlyTraps (act_create_ctrl_ref c l k.next_act) _ (or_trap-OnlyTraps _)
                    (λ ctrl. returns _))))))

  init-OnlyTraps :
      (k : Kernel Cap) (dummy init : Frame Cap) (kernel_name init_name : Text c)
      → IsShort kernel_name
      → IsShort init_name
      → OnlyTraps (act_init c l k dummy kernel_name init init_name)
  unfolding act_init act_init_user sched_d2a
  init-OnlyTraps k dummy init kernel_name init_name short short' =
      bind-OnlyTraps (or_trap (c.set_bounds c.get_default 0x1000)) _ (or_trap-OnlyTraps _) (λ id.
        bind-OnlyTraps (act_register c l (without_acts k id) (some dummy) kernel_name) _
          (register-OnlyTraps (without_acts k id) (some dummy) kernel_name (omega arith) short)
          (λ (ctrl, k1).
            let ready = record (retired k1) { curr_act = 1; next_act = 1 } in
            bind-OnlyTraps (act_register c l ready (some init) init_name) _
              (register-OnlyTraps ready (some init) init_name (omega arith) short')
              (λ (ctrl', k2). returns _)))

module _ (c : Cheri) (laws : Laws c) (l : Layout) (fits : Fits l) where
  open c use {Cap}

  -- From the second registration on.
  last-IsRunning :
      (k k2 : Kernel Cap) (ctrl : Cap)
      → k.next_act ≡ 1
      → k.curr_act ≡ 1
      → IsNew c laws l fits k k2 ctrl
      → IsRunning (started k2) × ((started k2).curr_act ≡ 1)
  last-IsRunning k k2 ctrl one me new =
      let w : sched_status_of k2 k2.curr_act ≡ waiting =
        ap (sched_status_of k2) (new.same_current ∙ me ∙ sym one) ∙ new.waits in
      (
        started-IsRunning k2 new.sound (new.counted ∙ ap (λ n. n + 1) one) (new.same_current ∙ me)
            w,
        new.same_current ∙ me,
      )

  user-IsRunning :
      (k : Kernel Cap) (init : Frame Cap) (init_name : Text c) (k' : Kernel Cap)
      → IsSound k
      → k.next_act ≡ 1
      → sched_status_of k 0 ≡ waiting
      → act_init_user c l k init init_name ≡ ok k'
      → IsRunning k' × (k'.curr_act ≡ 1)
  unfolding act_init_user
  user-IsRunning k init init_name k' v one w e =
      let ready = record (retired k) { curr_act = 1; next_act = 1 } in
      let ((ctrl, k2), second, e2) = >>=-eq-ok (act_register c l ready (some init) init_name) _ e in
      let new =
        act_register-IsNew c laws l fits ready (some init) init_name ctrl k2
          (retired-IsSound k v one w) second in
      let same : started k2 ≡ k' = ok_injective (sym (start-eq k2 new.sound) ∙ e2) in
      subst (λ r. IsRunning r × (r.curr_act ≡ 1)) same (last-IsRunning ready k2 ctrl refl refl new)

  -- If `act_init` returns, it has turned static variables that are all zero into a sound kernel, in
  -- which activation 1 runs.
  pub act_init-IsRunning :
      (k : Kernel Cap) (dummy init : Frame Cap) (kernel_name init_name : Text c) (k' : Kernel Cap)
      → IsBlank k
      → act_init c l k dummy kernel_name init init_name ≡ ok k'
      → IsRunning k' × (k'.curr_act ≡ 1)
  unfolding act_init
  act_init-IsRunning k dummy init kernel_name init_name k' v e =
      let (default_id, _, e1) = >>=-eq-ok (or_trap (c.set_bounds c.get_default 0x1000)) _ e in
      let ((ctrl, k1), first, e2) =
        >>=-eq-ok (act_register c l (without_acts k default_id) (some dummy) kernel_name) _ e1 in
      let new =
        act_register-IsNew c laws l fits (without_acts k default_id) (some dummy) kernel_name ctrl
          k1 (blank-IsSound k default_id v) first in
      user-IsRunning k1 init init_name k' new.sound new.counted new.waits e2

  -- `act_init` turns static variables that are all zero into a sound kernel, in which activation 1
  -- runs, unless a capability instruction traps: it does not panic, fails no assertion and writes
  -- nothing out of bounds. The lengths of the two names are no negative `int`.
  pub act_init-Starts :
      (k : Kernel Cap) (dummy init : Frame Cap) (kernel_name init_name : Text c)
      → IsBlank k
      → IsShort c l kernel_name
      → IsShort c l init_name
      → (act_init c l k dummy kernel_name init init_name ≡ halt trap)
        ⊎ ((k' : Kernel Cap) × (act_init c l k dummy kernel_name init init_name ≡ ok k')
            × IsRunning k'
            × (k'.curr_act ≡ 1))
  act_init-Starts k dummy init kernel_name init_name v short short' =
      elim (OnlyTraps-cases _
        (init-OnlyTraps c l k dummy init kernel_name init_name short short')) [
          | inl trapped ↦ inl trapped
          | inr (k', done) ↦
              let (runs, one) = act_init-IsRunning k dummy init kernel_name init_name k' v done in
              inr (k', done, runs, one)
        ]
