-- ===== src/Kernel/Act/Life.antt =====
-- The life of an activation: registration, revocation, termination, and the references to it.
use cherios.Base.{
  ℕ, ◌+◌, ◌-◌, ◌*◌, ◌/◌, ◌%◌, ◌≤◌, ◌<◌, ◌≡◌, refl, ap, ◌∙◌, ◌≢◌, false, Bool-cases, inl, inr,
  Option, some, ok, halt, panic, or_trap, or_trap-eq-ok, five_steps-eq-ok, leb, arith, two_64, List,
}
use cherios.Cheri.{Cheri, Laws}
use cherios.Kernel.State.{Kernel, Frame, alive, waiting, sched_status_of, max_activations}
use cherios.Kernel.Inv.{IsSound}
use cherios.Kernel.Env.{Layout, Fits, Text, otype_ctrl, kernel_seal, act_index, act_address}
use cherios.Kernel.Act.{
  act_name, act_create_ref, act_create_ctrl_ref, install, act_register, ctrl_aid, act_get_status,
  status_number,
}

entry-in :
    (base size aid : ℕ)
    → base + max_activations * size ≤ two_64
    → 0 < size
    → aid < max_activations
    → (base + aid * size) % two_64 ≡ base + aid * size
entry-in base size aid h pos lt = grind arith

entry-index : (base size aid : ℕ) → 0 < size → (base + aid * size - base) / size ≡ aid
entry-index base size aid pos = grind arith

module _ (c : Cheri) (laws : Laws c) (l : Layout) (fits : Fits l) where
  open c use {Cap}

  -- The pointer to an entry of `kernel_acts` finds that entry.
  act_index-address :
      (aid : ℕ)
      → aid < max_activations
      → act_index c l (c.set_offset c.get_default (act_address c l aid)) ≡ ok aid
  unfolding act_index
  act_index-address aid lt =
      let inside : act_address c l aid ≡ l.acts_base + aid * l.act_size =
        entry-in l.acts_base l.act_size aid fits.below fits.sized lt in
      let offset : c.get_offset (c.set_offset c.get_default (act_address c l aid))
          ≡ act_address c l aid =
        laws.get_offset-set_offset c.get_default (act_address c l aid) laws.default_unsealed
          (omega arith) in
      let base : c.get_base (c.set_offset c.get_default (act_address c l aid)) ≡ 0 =
        laws.get_base-set_offset c.get_default (act_address c l aid) ∙ laws.default_base in
      let back : (0 + act_address c l aid) % two_64 ≡ act_address c l aid = omega arith in
      let index : (act_address c l aid - l.acts_base) / l.act_size ≡ aid =
        rw inside (entry-index l.acts_base l.act_size aid fits.sized) in
      rw (base, offset, back, index) (ground (arith, inside))

  -- A control reference finds the activation that it was made for.
  ctrl_aid-create :
      (k : Kernel Cap) (aid : ℕ) (r : Cap)
      → aid < max_activations
      → (k.acts aid).aid ≡ aid
      → act_create_ctrl_ref c l aid ≡ ok r
      → ctrl_aid c l k r ≡ ok aid
  unfolding ctrl_aid act_create_ctrl_ref
  ctrl_aid-create k aid r lt named e =
      let opens : c.unseal r (c.set_offset c.get_default otype_ctrl)
          ≡ some (c.set_offset c.get_default (act_address c l aid)) =
        laws.unseal-seal _ _ r (or_trap-eq-ok _ e) in
      rw (opens, act_index-address aid lt) (ap ok named)

  -- What a successful registration has done.
  abbrev pub Installs : Kernel Cap → Kernel Cap → Type 0
  Installs k k' =
      (text : List ℕ) × (regs : Frame Cap) × (reference : Cap) × (default_id : Cap) × (k'
        ≡ install k regs text reference default_id)

  act_register-inv :
      (k : Kernel Cap) (frame : Option (Frame Cap)) (name : Text c) (ctrl : Cap) (k' : Kernel Cap)
      → leb max_activations k.next_act ≡ false
      → act_register c l k frame name ≡ ok (ctrl, k')
      → (act_create_ctrl_ref c l k.next_act ≡ ok ctrl) × Installs k k'
  unfolding act_register
  act_register-inv k frame name ctrl k' room e =
      five_steps-eq-ok (act_name c name) (or_trap frame) (act_create_ref c l k.next_act)
        (kernel_seal c k.act_default_id k.next_act) (act_create_ctrl_ref c l k.next_act)
        (λ text regs. install k regs text) (rw room at e)

  install-IsSound :
      (k : Kernel Cap) (regs : Frame Cap) (text : List ℕ) (reference default_id : Cap)
      → IsSound k
      → k.next_act < max_activations
      → IsSound (install k regs text reference default_id)
  unfolding install
  install-IsSound k regs text reference default_id v lt = record {
    ready = record {
      slot = v.ready.slot;
      listed = λ i h. ground (arith, v.ready.listed i h, v.ready.known (k.squeue_a i));
      present = λ b h. ground (arith, v.ready.present b);
      known = λ b h. ground (arith, v.ready.known b);
      room = omega arith;
    };
    mail = record {
      rings = λ b h. ground (arith, v.mail.rings b);
      quiet = λ b h. ground (arith, v.mail.quiet b);
      held = λ b h. ground (arith, v.mail.held b);
    };
    wired = λ i h. ground (arith, v.wired i);
  }

  -- A registered activation, as its new control reference shows it.
  pub record IsNew (k k' : Kernel Cap) (ctrl : Cap) : Type 0 where
    pub sound : IsSound k'
    pub counted : k'.next_act ≡ k.next_act + 1
    pub waits : sched_status_of k' k.next_act ≡ waiting
    pub refers : ctrl_aid c l k' ctrl ≡ ok k.next_act
    pub is_alive : act_get_status c l k' ctrl ≡ ok (status_number alive)
    pub others : (a : ℕ) → a ≢ k.next_act → k'.acts a ≡ k.acts a
    pub same_current : k'.curr_act ≡ k.curr_act
    pub same_framep : k'.framep ≡ k.framep

  installed-IsNew :
      (k : Kernel Cap) (ctrl : Cap) (regs : Frame Cap) (text : List ℕ) (reference default_id : Cap)
      → IsSound k
      → k.next_act < max_activations
      → act_create_ctrl_ref c l k.next_act ≡ ok ctrl
      → IsNew k (install k regs text reference default_id) ctrl
  unfolding install act_get_status
  installed-IsNew k ctrl regs text reference default_id v lt made =
      let refers =
        ctrl_aid-create (install k regs text reference default_id) k.next_act ctrl lt (ground arith)
          made in
      record {
        sound = install-IsSound k regs text reference default_id v lt;
        counted = omega arith;
        waits = ground arith;
        refers = refers;
        is_alive = rw refers (ground arith);
        others = λ a ne. ground arith;
        same_current = refl;
        same_framep = refl;
      }

  act_register-full :
      (k : Kernel Cap) (frame : Option (Frame Cap)) (name : Text c)
      → max_activations ≤ k.next_act
      → act_register c l k frame name ≡ halt panic
  unfolding act_register
  act_register-full k frame name h = ground arith

  register-room :
      (k : Kernel Cap) (frame : Option (Frame Cap)) (name : Text c) (r : Cap × Kernel Cap)
      → act_register c l k frame name ≡ ok r
      → k.next_act < max_activations
  register-room k frame name r e = elim (Bool-cases (leb max_activations k.next_act)) [
    | inl out ↦ cc (act_register-full k frame name (ground arith))
    | inr room ↦ ground arith
  ]

  -- A registration that succeeds in a sound kernel keeps it sound, and returns a control reference
  -- through which the new activation is found, alive and waiting; no other activation changes.
  pub act_register-IsNew :
      (k : Kernel Cap) (frame : Option (Frame Cap)) (name : Text c) (ctrl : Cap) (k' : Kernel Cap)
      → IsSound k
      → act_register c l k frame name ≡ ok (ctrl, k')
      → IsNew k k' ctrl
  act_register-IsNew k frame name ctrl k' v e =
      let room : k.next_act < max_activations = register-room k frame name (ctrl, k') e in
      let (made, what) = act_register-inv k frame name ctrl k' (ground arith) e in
      let (text, regs, reference, default_id, same) = what in
      rw same (installed-IsNew k ctrl regs text reference default_id v room made)
