-- ===== src/Kernel/Ready/Inv.antt =====
-- The ready queue's invariant: it lists exactly the activations that are runnable or schedulable,
-- each once, and `aqueue` finds each.
use cherios.Base.{
  ℕ, ◌+◌, ◌-◌, ◌≤◌, ◌<◌, ◌≡◌, ap, ◌∙◌, sym, ◌≢◌, Bool, true, false, ◌||◌, update, ok, arith,
}
use cherios.Base.Pigeonhole.{pigeonhole}
use cherios.Kernel.State.{
  Kernel, SchedStatus, is_schedulable, is_runnable, is_sync_block, is_waiting, set_sched_status,
  sched_status_of, max_activations,
}
use cherios.Kernel.Ready.{sched_d2a, sched_a2d}

abbrev pub is_queued : SchedStatus → Bool
is_queued s = is_runnable s || is_schedulable s

abbrev pub is_parked : SchedStatus → Bool
is_parked s = is_sync_block s || is_waiting s

module _ {Cap : Type 0} where
  abbrev pub Queued : Kernel Cap → ℕ → Type 0
  Queued k a = is_queued (sched_status_of k a) ≡ true

  pub record IsReady (k : Kernel Cap) : Type 0 where
    pub slot : (i : ℕ) → i < k.squeue_a_end → k.aqueue (k.squeue_a i) ≡ i
    pub listed : (i : ℕ) → i < k.squeue_a_end → Queued k (k.squeue_a i)
    pub present :
        (a : ℕ) → Queued k a → (k.aqueue a < k.squeue_a_end) × (k.squeue_a (k.aqueue a) ≡ a)
    pub known : (a : ℕ) → Queued k a → (0 < a) × (a < k.next_act)
    pub room : k.next_act ≤ max_activations

  -- A ready queue that keeps its invariant has at most `MAX_ACTIVATIONS` entries.
  pub end-lt : {k : Kernel Cap} → IsReady k → k.squeue_a_end ≤ max_activations
  end-lt {k} v =
      let short : k.squeue_a_end ≤ k.next_act =
        pigeonhole k.next_act k.squeue_a_end k.squeue_a (λ i h. (v.known _ (v.listed i h)).1)
          (λ i j hi hj e. sym (v.slot i hi) ∙ ap k.aqueue e ∙ v.slot j hj) in
      omega (arith, v.room)

  -- The states that entering and leaving lead to.
  abbrev pub entered : Kernel Cap → ℕ → SchedStatus → Kernel Cap
  entered k a s =
      set_sched_status
        (record k {
          aqueue = update k.aqueue a k.squeue_a_end;
          squeue_a = update k.squeue_a k.squeue_a_end a;
          squeue_a_end = k.squeue_a_end + 1;
        })
        a s

  abbrev pub left : Kernel Cap → ℕ → SchedStatus → Kernel Cap
  left k a s =
      let last = k.squeue_a_end - 1 in
      set_sched_status
        (record k {
          squeue_a_end = last;
          squeue_a = update k.squeue_a (k.aqueue a) (k.squeue_a last);
          aqueue = update k.aqueue (k.squeue_a last) (k.aqueue a);
        })
        a s

  pub d2a-eq :
      (k : Kernel Cap) (a : ℕ) (s : SchedStatus)
      → IsReady k
      → is_queued s ≡ true
      → sched_d2a k a s ≡ ok (entered k a s)
  unfolding sched_d2a
  d2a-eq k a s v q = ground (arith, end-lt v)

  pub a2d-eq :
      (k : Kernel Cap) (a : ℕ) (s : SchedStatus)
      → IsReady k
      → Queued k a
      → is_parked s ≡ true
      → sched_a2d k a s ≡ ok (left k a s)
  unfolding sched_a2d
  a2d-eq k a s v q p = ground (arith, end-lt v, v.present a q)

  pub entered-IsReady :
      {k : Kernel Cap} (a : ℕ) (s : SchedStatus)
      → IsReady k
      → is_queued (sched_status_of k a) ≡ false
      → is_queued s ≡ true
      → 0 < a
      → a < k.next_act
      → IsReady (entered k a s)
  entered-IsReady {k} a s v out q pos lt = record {
    slot = λ i h. ground (arith, v.slot i, v.listed i);
    listed = λ i h. ground (arith, v.listed i);
    present = λ b h. ground (arith, v.present b);
    known = λ b h. ground (arith, v.known b);
    room = v.room;
  }

  pub left-IsReady :
      {k : Kernel Cap} (a : ℕ) (s : SchedStatus)
      → IsReady k
      → Queued k a
      → is_queued s ≡ false
      → IsReady (left k a s)
  left-IsReady {k} a s v q out = record {
    slot = λ i h. ground (arith, v.slot i, v.slot (k.squeue_a_end - 1), v.present a q);
    listed = λ i h. ground (
      arith,
      v.listed i,
      v.slot i,
      v.listed (k.squeue_a_end - 1),
      v.slot (k.squeue_a_end - 1),
      v.present a q,
    );
    present = λ b h. ground (arith, v.present b, v.present a q, v.slot (k.squeue_a_end - 1));
    known = λ b h. ground (arith, v.known b);
    room = v.room;
  }

  -- With an exact ready queue, an activation that exists and is not queued enters it: no assertion
  -- of `sched_d2a` fails, the queue stays exact, and the activation has the status given.
  pub sched_d2a-IsReady :
      (k : Kernel Cap) (a : ℕ) (s : SchedStatus)
      → IsReady k
      → is_queued (sched_status_of k a) ≡ false
      → is_queued s ≡ true
      → 0 < a
      → a < k.next_act
      → (k' : Kernel Cap) × (sched_d2a k a s ≡ ok k') × IsReady k' × (sched_status_of k' a ≡ s)
  sched_d2a-IsReady k a s v out q pos lt =
      (entered k a s, d2a-eq k a s v q, entered-IsReady a s v out q pos lt, ground arith)

  -- With an exact ready queue, a queued activation leaves it: no assertion of `sched_a2d` fails,
  -- the queue stays exact (the last entry fills the gap), the activation has the status given, and
  -- every other one keeps its entry.
  pub sched_a2d-IsReady :
      (k : Kernel Cap) (a : ℕ) (s : SchedStatus)
      → IsReady k
      → Queued k a
      → is_parked s ≡ true
      → (k' : Kernel Cap) × (sched_a2d k a s ≡ ok k')
        × IsReady k'
        × (sched_status_of k' a ≡ s)
        × ((b : ℕ) → b ≢ a → k'.acts b ≡ k.acts b)
  sched_a2d-IsReady k a s v q p = (
    left k a s,
    a2d-eq k a s v q p,
    left-IsReady a s v q (ground arith),
    ground arith,
    λ b h. ground arith,
  )
