-- ===== src/Base/Pigeonhole.antt =====
-- The pigeonhole principle: an array of distinct numbers below `m` is no longer than `m`.
use Prim.Native.Nat.{ℕ, zero, suc, ◌≤◌, ◌<◌}
use mathlib.Core.Path.{◌≡◌}
use native.Mathlib.Omega.{arith}
use cherios.Base.Tests.{◌==◌, if◌then◌else◌}

-- The array with its last entry moved to where `m` stood.
fill : (ℕ → ℕ) → ℕ → ℕ → ℕ → ℕ
fill f m last i = if f i == m then f last else f i

abbrev Distinct : (ℕ → ℕ) → ℕ → Type 0
Distinct f n = (i j : ℕ) → i < n → j < n → f i ≡ f j → i ≡ j

module _ (f : ℕ → ℕ) (m last : ℕ) (inj : Distinct f (suc last)) where
  fill-lt : (i : ℕ) → i < last → f i < suc m → f last < suc m → fill f m last i < m
  unfolding fill
  fill-lt i h bi bl = ground (arith, inj i last)

  fill-inj : (i j : ℕ) → i < last → j < last → fill f m last i ≡ fill f m last j → i ≡ j
  unfolding fill
  fill-inj i j hi hj e = ground (arith, inj i j, inj i last, inj j last)

pub pigeonhole :
    (m n : ℕ) (f : ℕ → ℕ)
    → ((i : ℕ) → i < n → f i < m)
    → ((i j : ℕ) → i < n → j < n → f i ≡ f j → i ≡ j)
    → n ≤ m
pigeonhole m zero f below inj = omega arith
pigeonhole zero (suc n) f below inj = absurd (omega (arith, below 0 (omega arith)))
pigeonhole (suc m) (suc n) f below inj =
    let shorter : n ≤ m =
      pigeonhole m n (fill f m n)
        (λ i h. fill-lt f m n inj i h (below i (omega arith)) (below n (omega arith)))
        (fill-inj f m n inj) in
    omega arith
