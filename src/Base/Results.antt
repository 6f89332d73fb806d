-- ===== src/Base/Results.antt =====
-- Results of code that may stop the machine: a failed assertion or a panic never returns to its
-- caller, and a capability instruction may trap. `overrun` is an access outside an array, which C
-- leaves undefined; `diverged` a loop that used up its fuel.
use mathlib.Core.Path.{◌≡◌, refl}
use mathlib.Core.Logic.{◌⊎◌, inl, inr}
use mathlib.Core.Bool.{Bool, true, false}
use mathlib.Core.Option.{Option, none, some}

pub data Halt : Type 0 where
  assertion panic trap overrun diverged : Halt

pub data Res {ℓ} (A : Type ℓ) : Type ℓ where
  ok : A → Res A
  halt : Halt → Res A

infixl 5 ◌>>=◌ ◌>>◌
abbrev pub ◌>>=◌ {ℓ κ} : {A : Type ℓ} {B : Type κ} → Res A → (A → Res B) → Res B
halt reason >>= next = halt reason
ok result >>= next = next result

abbrev pub ◌>>◌ {ℓ} : {B : Type ℓ} → Res (Unit {0}) → Res B → Res B
first >> rest = first >>= λ done. rest

-- `assert(e)`
abbrev pub assert : Bool → Res (Unit {0})
assert true = ok tt
assert false = halt assertion

-- An instruction that may trap.
abbrev pub or_trap {ℓ} : {A : Type ℓ} → Option A → Res A
or_trap none = halt trap
or_trap (some a) = ok a

-- If two steps in a row succeed, each of them does.
pub >>=-eq-ok {ℓ κ} :
    {E : Type ℓ} {F : Type κ} (first : Res E) (second : E → Res F) {r : F}
    → (first >>= second) ≡ ok r
    → (e : E) × (first ≡ ok e) × (second e ≡ ok r)
>>=-eq-ok (halt reason) second went = cc
>>=-eq-ok (ok e) second went = (e, refl, went)

pub or_trap-eq-ok {ℓ} : {A : Type ℓ} (o : Option A) {a : A} → or_trap o ≡ ok a → o ≡ some a
or_trap-eq-ok none h = cc
or_trap-eq-ok (some b) h = cc

abbrev paired {ℓ} : {E F : Type ℓ} → E → F → Res (E × F)
paired e f = ok (e, f)

-- Inversion of five steps in a row, of which the last gives the first part of the result.
pub five_steps-eq-ok {ℓ} :
    {A B C D E F : Type ℓ} (m : Res A) (n : Res B) (o : Res C) (p : Res D) (q : Res E)
    (f : A → B → C → D → F) {r : E} {s : F}
    → (do a ← m; b ← n; c ← o; d ← p; e ← q; paired e (f a b c d)) ≡ ok (r, s)
    → (q ≡ ok r) × ((a : A) × (b : B) × (c : C) × (d : D) × (s ≡ f a b c d))
five_steps-eq-ok (ok a) (ok b) (ok c) (ok d) (ok e) f h = (cc, (a, b, c, d, cc))
five_steps-eq-ok (ok a) (ok b) (ok c) (ok d) (halt e) f h = cc
five_steps-eq-ok (ok a) (ok b) (ok c) (halt e) q f h = cc
five_steps-eq-ok (ok a) (ok b) (halt e) p q f h = cc
five_steps-eq-ok (ok a) (halt e) o p q f h = cc
five_steps-eq-ok (halt e) n o p q f h = cc

pub ok_injective {ℓ} : {A : Type ℓ} {a b : A} → ok a ≡ ok b → a ≡ b
ok_injective e = cc

pub Res-cases {ℓ} :
    {A : Type ℓ} (r : Res A) → ((reason : Halt) × (r ≡ halt reason)) ⊎ ((a : A) × (r ≡ ok a))
Res-cases (halt reason) = inl (reason, refl)
Res-cases (ok a) = inr (a, refl)
