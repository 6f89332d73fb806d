-- ===== src/Kernel/Syscalls/Effects.antt =====
-- How the result of a system call is returned, and the calls that only reschedule.
use cherios.Base.{
  ℕ, ◌%◌, ◌≡◌, refl, subst, Option, none, some, Bool-cases, inl, inr, Res, ok, halt, panic,
  assertion, trap, overrun, diverged, or_trap, ◌>>=◌, ◌==◌, two_32,
}
use cherios.Kernel.State.{Kernel, current}
use cherios.Kernel.Inv.{IsRunning, Contained, Resumes-Contained}
use cherios.Kernel.Sched.Resume.{sched_reschedule-Resumes}
use cherios.Kernel.Ccall.Deliver.{reframed-IsRunning}
use cherios.Kernel.Syscalls.{return_v0, return_c3, keeping, syscall_sleep}

-- A result, a panic or a trap.
abbrev pub Mild {ℓ} : {A : Type ℓ} → Res A → Type 0
Mild (ok a) = Unit
Mild (halt panic) = Unit
Mild (halt assertion) = ⊥
Mild (halt trap) = Unit
Mild (halt overrun) = ⊥
Mild (halt diverged) = ⊥

pub bind-Mild {ℓ κ} :
    {A : Type ℓ} {B : Type κ} (r : Res A) (f : A → Res B)
    → Mild r
    → ((a : A) → Mild (f a))
    → Mild (r >>= f)
bind-Mild (ok a) f p g = g a
bind-Mild (halt panic) f p g = tt
bind-Mild (halt assertion) f p g = p
bind-Mild (halt trap) f p g = tt
bind-Mild (halt overrun) f p g = p
bind-Mild (halt diverged) f p g = p

pub or_trap-Mild {ℓ} : {A : Type ℓ} (o : Option A) → Mild (or_trap o)
or_trap-Mild none = tt
or_trap-Mild (some a) = tt

module _ {Cap : Type 0} where
  -- What a call returns goes into a register of the activation that runs.
  pub return_v0-Contained :
      (r : Res (ℕ × Kernel Cap))
      → Mild r
      → ((n : ℕ) (k : Kernel Cap) → r ≡ ok (n, k) → IsRunning k)
      → Contained (return_v0 r)
  return_v0-Contained (ok (n, k)) m v = reframed-IsRunning k _ (v n k refl)
  return_v0-Contained (halt panic) m v = tt
  return_v0-Contained (halt assertion) m v = m
  return_v0-Contained (halt trap) m v = tt
  return_v0-Contained (halt overrun) m v = m
  return_v0-Contained (halt diverged) m v = m

  pub return_c3-Contained :
      (r : Res (Cap × Kernel Cap))
      → Mild r
      → ((p : Cap) (k : Kernel Cap) → r ≡ ok (p, k) → IsRunning k)
      → Contained (return_c3 r)
  return_c3-Contained (ok (p, k)) m v = reframed-IsRunning k _ (v p k refl)
  return_c3-Contained (halt panic) m v = tt
  return_c3-Contained (halt assertion) m v = m
  return_c3-Contained (halt trap) m v = tt
  return_c3-Contained (halt overrun) m v = m
  return_c3-Contained (halt diverged) m v = m

  pub keeping-Mild : {A : Type 0} (k : Kernel Cap) (r : Res A) → Mild r → Mild (keeping k r)
  keeping-Mild k r m = bind-Mild r (λ a. ok (a, k)) m (λ a. tt)

  keeping-eq-ok :
      {A : Type 0} (k k' : Kernel Cap) (r : Res A) (a : A) → keeping k r ≡ ok (a, k') → k ≡ k'
  keeping-eq-ok k k' (ok b) a e = cc
  keeping-eq-ok k k' (halt h) a e = cc

  pub kept-IsRunning :
      {A : Type 0} (k k' : Kernel Cap) (r : Res A) (a : A)
      → IsRunning k
      → keeping k r ≡ ok (a, k')
      → IsRunning k'
  kept-IsRunning k k' r a v e = subst IsRunning (keeping-eq-ok k k' r a e) v

  pub sleep-Contained : (k : Kernel Cap) → IsRunning k → Contained (syscall_sleep k)
  unfolding syscall_sleep
  sleep-Contained k v = elim (Bool-cases ((current k).a0 % two_32 == 0)) [
    | inl now ↦ rw now (Resumes-Contained _ (sched_reschedule-Resumes k 0 v.sound))
    | inr later ↦ rw later v
  ]
