-- ===== src/Kernel/Syscalls/Standing.antt =====
-- The owner of an interrupt stays in system calls: kernel/src/syscalls.c.
use cherios.Base.{
  ℕ, ◌%◌, ◌≡◌, ◌≢◌, true, ◌==◌, Option, Res, ok, panic, overrun, or_trap, ◌>>=◌, if◌then◌else◌, leb,
  ltb, arith, update, two_32, Bool-cases, inl, inr,
}
use cherios.Cheri.{Cheri}
use cherios.Kernel.State.{Kernel, Frame, current, set_status, dead, max_activations, is_dead}
use cherios.Kernel.Env.{Text, Layout, kernel_seal}
use cherios.Kernel.Act.{
  kernel_skip_instr, act_terminate, ctrl_aid, act_register, install, act_name, act_create_ref,
  act_create_ctrl_ref, act_revoke, revoke_aid,
}
use cherios.Kernel.Syscalls.{
  UserMemory, Syscall, sleep, act_register_call, get_ref, get_id, get_status, revoke, terminate,
  seal_identifier, puts, stop, interrupt_register, interrupt_enable, unknown, syscall_of, return_v0,
  return_c3, keeping, syscall_sleep, syscall_act_terminate, dispatch, kernel_exception_syscall,
}
use cherios.Kernel.Interrupts.{
  int_children, validate_number, int_child_at, kernel_interrupt_register, kernel_interrupt_enable,
}
use cherios.Kernel.Msg.{minus_one}
use cherios.Kernel.Ready.{sched_delete}
use cherios.Kernel.Ccall.Standing.{Stays, StaysWith}
use cherios.Kernel.Interrupts.Standing.{
  kept, stops, whole, second, Owns, bind-Keeps, then-Keeps, if-Keeps, sched_delete-Keeps,
  sched_reschedule-Keeps,
}

module _ (c : Cheri) (n a : ℕ) where
  open c use {Cap}

  -- A result in a register
  v0-Keeps : (r : Res (ℕ × Kernel Cap)) → StaysWith c n a r → Stays c n a (return_v0 r)
  v0-Keeps r v = bind-Keeps n a second whole r _ v (λ (ret, k) w. kept _ w)

  c3-Keeps : (r : Res (Cap × Kernel Cap)) → StaysWith c n a r → Stays c n a (return_c3 r)
  c3-Keeps r v = bind-Keeps n a second whole r _ v (λ (ret, k) w. kept _ w)

  keeping-Keeps :
      {A : Type 0} (k : Kernel Cap) (r : Res A) → Owns n a k → StaysWith c n a (keeping k r)
  keeping-Keeps k r v = then-Keeps n a second r _ (λ x. kept _ v)

  module _ (l : Layout) where
    act_register-Keeps :
        (k : Kernel Cap) (frame : Option (Frame Cap)) (name : Text c)
        → Owns n a k
        → StaysWith c n a (act_register c l k frame name)
    unfolding act_register install
    act_register-Keeps k frame name v =
        let aid = k.next_act in
        if-Keeps n a second (leb max_activations aid) _ _ (stops panic) (
          then-Keeps n a second (act_name c name) _ (λ text.
            then-Keeps n a second (or_trap frame) _ (λ regs.
              then-Keeps n a second (act_create_ref c l aid) _ (λ reference.
                then-Keeps n a second (kernel_seal c k.act_default_id aid) _ (λ id.
                  then-Keeps n a second (act_create_ctrl_ref c l aid) _ (λ ctrl. kept _ v))))))

    act_revoke-Keeps :
        (k : Kernel Cap) (ctrl : Cap) → Owns n a k → StaysWith c n a (act_revoke c l k ctrl)
    unfolding act_revoke revoke_aid
    act_revoke-Keeps k ctrl v =
        then-Keeps n a second (ctrl_aid c l k ctrl) _
          (λ aid. if-Keeps n a second (is_dead (k.acts aid).status) _ _ (kept _ v) (kept _ v))

    act_terminate-Keeps :
        (k : Kernel Cap) (ctrl : Cap) → Owns n a k → StaysWith c n a (act_terminate c l k ctrl)
    unfolding act_terminate
    act_terminate-Keeps k ctrl v = then-Keeps n a second (ctrl_aid c l k ctrl) _ (λ act.
        bind-Keeps n a whole second (sched_delete (set_status k act dead) act) _
          (sched_delete-Keeps n a (set_status k act dead) act v)
          (λ k1 w. if-Keeps n a second (act == k.curr_act) _ _ (kept _ w) (kept _ w)))

    terminate-Keeps :
        (u : UserMemory c) (k : Kernel Cap)
        → Owns n a k
        → Stays c n a (syscall_act_terminate c l u k)
    unfolding syscall_act_terminate
    terminate-Keeps u k v =
        bind-Keeps n a second whole (act_terminate c l k (current k).c3) _
          (act_terminate-Keeps k (current k).c3 v)
          (λ (ret, k1) w.
            if-Keeps n a whole (ret == 1) _ _ (sched_reschedule-Keeps n a k1 0 w) (kept _ w))

  sleep-Keeps : (k : Kernel Cap) → Owns n a k → Stays c n a (syscall_sleep k)
  unfolding syscall_sleep
  sleep-Keeps k v =
      if-Keeps n a whole ((current k).a0 % two_32 == 0) _ _ (sched_reschedule-Keeps n a k 0 v)
        (kept k v)

  module _ (owned : a ≢ 0) where
    -- An interrupt that is free is not this one.
    free-Owns :
        (k : Kernel Cap) (number : ℕ)
        → Owns n a k
        → (k.int_child number == 0) ≡ true
        → update k.int_child number k.curr_act n ≡ a
    free-Owns k number v free = ground (arith, v)

    entered_register-Keeps :
        (k : Kernel Cap) (number : ℕ)
        → Owns n a k
        → StaysWith c n a (do
          child ← int_child_at k number
          if child == 0
              then ok (0, record k { int_child = update k.int_child number k.curr_act })
              else ok (minus_one, k))
    unfolding int_child_at
    entered_register-Keeps k number v = elim (Bool-cases (ltb number int_children)) [
      | inr past ↦ rw past (stops overrun)
      | inl low ↦ rw low (elim (Bool-cases (k.int_child number == 0)) [
        | inl free ↦ rw free (kept _ (free-Owns k number v free))
        | inr taken ↦ rw taken (kept _ v)
      ])
    ]

    kernel_interrupt_register-Keeps :
        (k : Kernel Cap) (number : ℕ)
        → Owns n a k
        → StaysWith c n a (kernel_interrupt_register k number)
    unfolding kernel_interrupt_register
    kernel_interrupt_register-Keeps k number v =
        if-Keeps n a second (validate_number number) _ _ (entered_register-Keeps k number v)
          (kept _ v)

    kernel_interrupt_enable-Keeps :
        (k : Kernel Cap) (number : ℕ)
        → Owns n a k
        → StaysWith c n a (kernel_interrupt_enable k number)
    unfolding kernel_interrupt_enable
    kernel_interrupt_enable-Keeps k number v =
        if-Keeps n a second (validate_number number) _ _
          (then-Keeps n a second (int_child_at k number) _
            (λ child. if-Keeps n a second (child == k.curr_act) _ _ (kept _ v) (kept _ v)))
          (kept _ v)

    dispatch-Keeps :
        (l : Layout) (u : UserMemory c) (k : Kernel Cap) (s : Syscall)
        → Owns n a k
        → Stays c n a (dispatch c l u k s)
    unfolding dispatch
    dispatch-Keeps l u k sleep v = sleep-Keeps k v
    dispatch-Keeps l u k act_register_call v = c3-Keeps _ (act_register-Keeps l k _ _ v)
    dispatch-Keeps l u k get_ref v = c3-Keeps _ (keeping-Keeps k _ v)
    dispatch-Keeps l u k get_id v = c3-Keeps _ (keeping-Keeps k _ v)
    dispatch-Keeps l u k get_status v = v0-Keeps _ (keeping-Keeps k _ v)
    dispatch-Keeps l u k revoke v = v0-Keeps _ (act_revoke-Keeps l k _ v)
    dispatch-Keeps l u k terminate v = terminate-Keeps l u k v
    dispatch-Keeps l u k seal_identifier v = c3-Keeps _ (keeping-Keeps k _ v)
    dispatch-Keeps l u k puts v = kept k v
    dispatch-Keeps l u k stop v = stops panic
    dispatch-Keeps l u k interrupt_register v =
        v0-Keeps _ (kernel_interrupt_register-Keeps k ((current k).a0 % two_32) v)
    dispatch-Keeps l u k interrupt_enable v =
        v0-Keeps _ (kernel_interrupt_enable-Keeps k ((current k).a0 % two_32) v)
    dispatch-Keeps l u k unknown v = stops panic

    pub syscall-Keeps :
        (l : Layout) (u : UserMemory c) (k : Kernel Cap)
        → Owns n a k
        → Stays c n a (kernel_exception_syscall c l u k)
    unfolding kernel_exception_syscall kernel_skip_instr
    syscall-Keeps l u k v =
        bind-Keeps n a whole whole (dispatch c l u k (syscall_of (current k).v0)) _
          (dispatch-Keeps l u k (syscall_of (current k).v0) v) (λ k1 w. kept _ w)
