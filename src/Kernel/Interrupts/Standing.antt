-- ===== src/Kernel/Interrupts/Standing.antt =====
-- The owner of an interrupt stays: no part of kernel/src takes an interrupt from its activation.
use cherios.Base.{
  ℕ, zero, suc, ◌+◌, ◌≡◌, Bool, true, false, ◌==◌, Res, ok, halt, Halt, panic, diverged, assert,
  ◌>>=◌, subst, ok_injective, not, ltb, if◌then◌else◌, arith, update,
}
use cherios.Kernel.State.{
  Kernel, SchedStatus, waiting, schedulable, max_activations, set_sched_status, sched_status_of,
  is_schedulable, is_runnable,
}
use cherios.Kernel.Ready.{qdel, sched_delete, sched_d2a, sched_a2d}
use cherios.Kernel.Msg.{empty, full, put, message, wake, msg_push, msg_pop, msg_queue_empty}
use cherios.Kernel.Act.{act_wait}
use cherios.Kernel.Sched.{sched_schedule, sched_picknext, sched_try, sched_rounds, sched_reschedule}

-- Every kernel that the code returns satisfies the predicate; `of` finds it in the result.
pub data Keeps {A Cap : Type 0} (P : Kernel Cap → Type 0) (of : A → Kernel Cap)
    : Res A → Type 0 where
  kept : (x : A) → P (of x) → Keeps P of (ok x)
  stops : (reason : Halt) → Keeps P of (halt reason)

-- The kernel is the result, or the second part of it.
abbrev pub whole : {Cap : Type 0} → Kernel Cap → Kernel Cap
whole k = k

abbrev pub second : {A Cap : Type 0} → A × Kernel Cap → Kernel Cap
second p = p.1

-- A kernel that was returned is one of them.
pub kept-eq-ok :
    {A Cap : Type 0} {P : Kernel Cap → Type 0} (of : A → Kernel Cap) {r : Res A} {x : A}
    → r ≡ ok x
    → Keeps P of r
    → P (of x)
kept-eq-ok {P = P} of e (kept y v) = subst (λ y. P (of y)) (ok_injective e) v
kept-eq-ok of e (stops reason) = let no : ⊥ = cc in absurd no

module _ {Cap : Type 0} (n a : ℕ) where
  -- Activation `a` owns interrupt `n`.
  abbrev pub Owns : Kernel Cap → Type 0
  Owns k = k.int_child n ≡ a

  pub bind-Keeps :
      {A B : Type 0} (of : A → Kernel Cap) (to : B → Kernel Cap) (r : Res A) (next : A → Res B)
      → Keeps Owns of r
      → ((x : A) → Owns (of x) → Keeps Owns to (next x))
      → Keeps Owns to (r >>= next)
  bind-Keeps of to r next (kept x v) w = w x v
  bind-Keeps of to r next (stops reason) w = stops reason

  pub then-Keeps :
      {A B : Type 0} (to : B → Kernel Cap) (r : Res A) (next : A → Res B)
      → ((x : A) → Keeps Owns to (next x))
      → Keeps Owns to (r >>= next)
  then-Keeps to (ok x) next w = w x
  then-Keeps to (halt reason) next w = stops reason

  pub if-Keeps :
      {A : Type 0} (to : A → Kernel Cap) (b : Bool) (r s : Res A)
      → Keeps Owns to r
      → Keeps Owns to s
      → Keeps Owns to (if b then r else s)
  if-Keeps to true r s v w = v
  if-Keeps to false r s v w = w

  qdel-Keeps : (k : Kernel Cap) (act : ℕ) → Owns k → Keeps Owns whole (qdel k act)
  unfolding qdel
  qdel-Keeps k act v = then-Keeps whole (assert _) _ (λ x. kept _ v)

  pub sched_delete-Keeps :
      (k : Kernel Cap) (act : ℕ) → Owns k → Keeps Owns whole (sched_delete k act)
  unfolding sched_delete
  sched_delete-Keeps k act v =
      let queued = k.squeue_a (k.aqueue act) == act in
      bind-Keeps whole whole (if queued then qdel k act else ok k) _
        (if-Keeps whole queued _ _ (qdel-Keeps k act v) (kept k v)) (λ k' w. kept _ w)

  pub sched_d2a-Keeps :
      (k : Kernel Cap) (act : ℕ) (s : SchedStatus) → Owns k → Keeps Owns whole (sched_d2a k act s)
  unfolding sched_d2a
  sched_d2a-Keeps k act s v = then-Keeps whole (assert _) _ (λ x. kept _ v)

  pub sched_a2d-Keeps :
      (k : Kernel Cap) (act : ℕ) (s : SchedStatus) → Owns k → Keeps Owns whole (sched_a2d k act s)
  unfolding sched_a2d
  sched_a2d-Keeps k act s v =
      bind-Keeps whole whole (qdel k act) _ (qdel-Keeps k act v)
        (λ k' w. then-Keeps whole (assert _) _ (λ x. kept _ w))

  wake-Keeps : (k : Kernel Cap) (dest : ℕ) → Owns k → Keeps Owns whole (wake k dest)
  unfolding wake
  wake-Keeps k dest v = if-Keeps whole _ _ _ (sched_d2a-Keeps k dest _ v) (kept _ v)

  pub msg_push-Keeps :
      (k : Kernel Cap) (dest src : ℕ) (id t : Cap)
      → Owns k
      → Keeps Owns second (msg_push k dest src id t)
  unfolding msg_push
  msg_push-Keeps k dest src id t v =
      let queue = k.queues dest in
      let qmask = (k.acts dest).queue_mask in
      let m = message (k.frames src) id t in
      let pushed = record k { queues = update k.queues dest (put queue qmask m) } in
      then-Keeps second (assert (ltb 0 qmask)) _ (λ x.
        then-Keeps second (full queue qmask) _ (λ is_full. if-Keeps second is_full _ _ (kept _ v) (
          bind-Keeps whole second (wake pushed dest) _ (wake-Keeps pushed dest v)
            (λ k' w. kept _ w))))

  msg_pop-Keeps : (k : Kernel Cap) (act : ℕ) → Owns k → Keeps Owns whole (msg_pop k act)
  unfolding msg_pop
  msg_pop-Keeps k act v =
      let queue = k.queues act in
      then-Keeps whole (assert (is_schedulable (sched_status_of k act))) _
        (λ x. then-Keeps whole (assert (not (empty queue))) _ (λ y. kept _ v))

  sched_schedule-Keeps :
      (k : Kernel Cap) (act : ℕ) → Owns k → Keeps Owns whole (sched_schedule k act)
  unfolding sched_schedule
  sched_schedule-Keeps k act v =
      then-Keeps whole (assert (is_schedulable (sched_status_of k act))) _
        (λ x. bind-Keeps whole whole (msg_pop k act) _ (msg_pop-Keeps k act v) (λ k' w. kept _ w))

  chosen-Owns :
      (k : Kernel Cap) (hint : ℕ)
      → Owns k
      → Owns (if hint == 0 then sched_picknext k else (hint, k)).1
  unfolding sched_picknext
  chosen-Owns k hint v = ground (arith, v)

  sched_try-Keeps : (k : Kernel Cap) (hint : ℕ) → Owns k → Keeps Owns second (sched_try k hint)
  unfolding sched_try
  sched_try-Keeps k hint v =
      let (act, k1) = if hint == 0 then sched_picknext k else (hint, k) in
      let v1 : Owns k1 = chosen-Owns k hint v in
      let ready = is_schedulable (sched_status_of k1 act) in
      if-Keeps second (act == 0) _ _ (stops panic) (
        bind-Keeps whole second (if ready then sched_schedule k1 act else ok k1) _
          (if-Keeps whole ready _ _ (sched_schedule-Keeps k1 act v1) (kept _ v1))
          (λ k2 v2.
            if-Keeps second (is_runnable (sched_status_of k2 act)) _ _ (kept _ v2) (kept _ v2)))

  sched_rounds-Keeps :
      (fuel : ℕ) (k : Kernel Cap) (hint : ℕ) → Owns k → Keeps Owns whole (sched_rounds fuel k hint)
  unfolding sched_rounds
  sched_rounds-Keeps zero k hint v = stops diverged
  sched_rounds-Keeps (suc fuel) k hint v =
      bind-Keeps second whole (sched_try k hint) _ (sched_try-Keeps k hint v) (λ (done, k') w.
        elim done
          as (λ d. Keeps Owns whole (elim d [ true ↦ ok k' | false ↦ sched_rounds fuel k' 0 ])) [
            | true ↦ kept k' w
            | false ↦ sched_rounds-Keeps fuel k' 0 w
          ])

  pub sched_reschedule-Keeps :
      (k : Kernel Cap) (hint : ℕ) → Owns k → Keeps Owns whole (sched_reschedule k hint)
  unfolding sched_reschedule
  sched_reschedule-Keeps k hint v = sched_rounds-Keeps (max_activations + 2) k hint v

  pub act_wait-Keeps :
      (k : Kernel Cap) (act hint : ℕ) → Owns k → Keeps Owns whole (act_wait k act hint)
  unfolding act_wait
  act_wait-Keeps k act hint v =
      let idle =
        if msg_queue_empty k act
        then sched_a2d k act waiting
        else ok (set_sched_status k act schedulable) in
      then-Keeps whole (assert (is_runnable (sched_status_of k act))) _ (λ x.
        bind-Keeps whole whole idle _
          (if-Keeps whole (msg_queue_empty k act) _ _ (sched_a2d-Keeps k act waiting v) (kept _ v))
          (λ k' w. sched_reschedule-Keeps k' hint w))
