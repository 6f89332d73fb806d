-- ===== src/Boot/Modules/Waiting.antt =====
-- What init waits for: `acts_alive` of boot/src/init/init_utils.c over the kernel's system call.
use cherios.Base.{
  ℕ, ◌≡◌, ◌≢◌, refl, true, false, Bool-cases, ◌⊎◌, inl, inr, List, [], ◌∷◌, Option, none, some, ok,
  ◌==◌, arith,
}
use cherios.Cheri.{Cheri}
use cherios.Kernel.State.{Kernel, Status, alive, revoked, dead}
use cherios.Kernel.Env.{Layout}
use cherios.Kernel.Act.{ctrl_aid, act_get_status, status_number}
use cherios.Boot.Modules.{InitElem, act_alive, acts_alive}

module _ (c : Cheri) (l : Layout) (k : Kernel c.Cap) where
  open c use {Cap}

  -- A control reference of the kernel, or none
  abbrev pub IsKnown : Option Cap → Type 0
  IsKnown none = Unit {0}
  IsKnown (some ctrl) = (a : ℕ) × (ctrl_aid c l k ctrl ≡ ok a)

  abbrev pub HasEnded : Option Cap → Type 0
  HasEnded none = Unit {0}
  HasEnded (some ctrl) = (a : ℕ) × (ctrl_aid c l k ctrl ≡ ok a) × ((k.acts a).status ≡ dead)

  abbrev pub IsLiving : Option Cap → Type 0
  IsLiving none = ⊥
  IsLiving (some ctrl) = (a : ℕ) × (ctrl_aid c l k ctrl ≡ ok a) × ((k.acts a).status ≢ dead)

  abbrev pub AllKnown : List (InitElem Cap) → Type 0
  AllKnown [] = Unit {0}
  AllKnown (be ∷ l) = IsKnown be.ctrl × AllKnown l

  -- Each entry is a daemon or has ended, and some entry is neither.
  abbrev pub OnlyDaemons : List (InitElem Cap) → Type 0
  OnlyDaemons [] = Unit {0}
  OnlyDaemons (be ∷ l) = ((be.daemon ≢ 0) ⊎ HasEnded be.ctrl) × OnlyDaemons l

  abbrev pub SomeProgram : List (InitElem Cap) → Type 0
  SomeProgram [] = ⊥
  SomeProgram (be ∷ l) = ((be.daemon ≡ 0) × IsLiving be.ctrl) ⊎ SomeProgram l

  status-cases : (s : Status) → (s ≡ dead) ⊎ ((s ≢ dead) × ((status_number s == 2) ≡ false))
  status-cases alive = inr ((λ e. cc), refl)
  status-cases revoked = inr ((λ e. cc), refl)
  status-cases dead = inl refl

  act_alive-cases :
      (ctrl : Option Cap)
      → IsKnown ctrl
      → ((act_alive (act_get_status c l k) ctrl ≡ ok false) × HasEnded ctrl)
        ⊎ ((act_alive (act_get_status c l k) ctrl ≡ ok true) × IsLiving ctrl)
  unfolding act_alive act_get_status
  act_alive-cases none known = inl (refl, tt)
  act_alive-cases (some ctrl) (a, known) = elim (status-cases (k.acts a).status) [
    | inl gone ↦ inl (rw (known, gone) refl, (a, known, gone))
    | inr (here, number) ↦ inr (rw (known, number) refl, (a, known, here))
  ]

  -- Asked through the kernel's system call, `acts_alive` is 0 exactly if each module that is no
  -- daemon has been terminated or never came to be, and 1 if one of them is alive or revoked;
  -- provided that the control references are the kernel's.
  pub acts_alive-cases :
      (init_list : List (InitElem Cap))
      → AllKnown init_list
      → ((acts_alive (act_get_status c l k) init_list ≡ ok 0) × OnlyDaemons init_list)
        ⊎ ((acts_alive (act_get_status c l k) init_list ≡ ok 1) × SomeProgram init_list)
  unfolding acts_alive
  acts_alive-cases [] known = inl (refl, tt)
  acts_alive-cases (be ∷ init_list) (known, rest) = elim (Bool-cases (be.daemon == 0)) [
    | inr daemon ↦ elim (acts_alive-cases init_list rest) [
      | inl (e, over) ↦ inl (rw (daemon, e) refl, (inl (ground arith), over))
      | inr (e, one) ↦ inr (rw (daemon, e) refl, inr one)
    ]
    | inl program ↦ elim (act_alive-cases be.ctrl known) [
      | inr (e, living) ↦ inr (rw (program, e) refl, inl (ground arith, living))
      | inl (e, ended) ↦ elim (acts_alive-cases init_list rest) [
        | inl (f, over) ↦ inl (rw (program, e, f) refl, (inr ended, over))
        | inr (f, one) ↦ inr (rw (program, e, f) refl, inr one)
      ]
    ]
  ]
