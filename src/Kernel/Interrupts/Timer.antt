-- ===== src/Kernel/Interrupts/Timer.antt =====
-- The timer's deferral loop.
use cherios.Base.{
  ℕ, ◌+◌, ◌*◌, ◌^◌, ◌≤◌, ◌<◌, ◌≡◌, refl, List, [], ◌∷◌, ◌++◌, length, ap, ok, ltb, Bool-cases, inl,
  inr, arith, ◌⊎◌,
}
use cherios.Kernel.Interrupts.{tmod, timer_interval, timer_interval_min, defer_timer}

-- No threshold of the loop lies above `bound`.
abbrev pub Thresholds : ℕ → List ℕ → Type 0
Thresholds bound [] = Unit {0}
Thresholds bound (count ∷ counts) =
    (tmod (count + timer_interval_min) ≤ bound) × Thresholds bound counts

-- The rounds in which the timer is behind the threshold, from the time `next` on.
abbrev pub Behind : ℕ → List ℕ → Type 0
Behind next [] = Unit {0}
Behind next (count ∷ counts) =
    (next < tmod (count + timer_interval_min)) × Behind (next + timer_interval) counts

-- The timer is set to the first time, of the planned one and those that follow it at intervals,
-- that has reached the threshold when its round comes: in each earlier round the time lay before
-- the threshold. It is below 2^32, and the planned one or less than one interval past `bound`. This
-- holds if no threshold lies above `bound`, an interval below the register's end, and the rounds
-- given are enough to climb past it.
pub defer_timer-ends :
    (counts : List ℕ) (bound next : ℕ)
    → Thresholds bound counts
    → bound + timer_interval ≤ 2 ^ 32
    → next < 2 ^ 32
    → 0 < length counts
    → bound + timer_interval ≤ next + length counts * timer_interval
    → (r : ℕ) × (early : List ℕ) × (count : ℕ) × (rest : List ℕ) × (defer_timer counts next ≡ ok r)
      × (counts ≡ early ++ count ∷ rest)
      × Behind next early
      × (r ≡ next + length early * timer_interval)
      × (tmod (count + timer_interval_min) ≤ r)
      × (r < 2 ^ 32)
      × ((r ≡ next) ⊎ (r < bound + timer_interval))
unfolding defer_timer
defer_timer-ends [] bound next t fit lt some_left enough = absurd (omega arith)
defer_timer-ends (count ∷ counts) bound next t fit lt some_left enough =
    elim (Bool-cases (ltb next (tmod (count + timer_interval_min)))) [
      | inr late ↦
          let reached : tmod (count + timer_interval_min) ≤ next = ground arith in
          rw late (next, [], count, counts, refl, refl, tt, omega arith, reached, lt, inl refl)
      | inl early ↦
          let before : next < tmod (count + timer_interval_min) = ground arith in
          let behind : next < bound = ground (arith, t) in
          let step : tmod (next + timer_interval) ≡ next + timer_interval = omega arith in
          let more : 0 < length counts = omega arith in
          let (r, rounds, last, rest, done, split, were, at, reached, below, near) =
            defer_timer-ends counts bound (next + timer_interval) t.1 fit (omega arith) more
              (omega arith) in
          rw (early, step)
            (
              r,
              count ∷ rounds,
              last,
              rest,
              done,
              ap (λ l. count ∷ l) split,
              (before, were),
              omega arith,
              reached,
              below,
              inr (elim near [ inl same ↦ omega (arith, same) | inr past ↦ past ]),
            )
    ]
