-- ===== src/Cheri.antt =====
-- The capability instructions (the `cheri_` macros of include/cheric.h stand for compiler
-- builtins): parameters of the model. What the program relies on is in `Laws`.
use cherios.Base.{ℕ, ◌<◌, ◌≡◌, Bool, false, Option, some, two_64}

pub record Cheri : Type 1 where
  pub Cap : Type 0
  pub null : Cap
  pub is_null : Cap → Bool
  pub get_default : Cap
  pub get_pcc : Cap
  pub get_base : Cap → ℕ
  pub get_offset : Cap → ℕ
  pub get_len : Cap → ℕ
  pub get_perm : Cap → ℕ
  pub get_type : Cap → ℕ
  pub get_tag : Cap → Bool
  pub get_sealed : Cap → Bool
  pub set_offset : Cap → ℕ → Cap
  pub inc_offset : Cap → ℕ → Cap
  pub and_perm : Cap → ℕ → Cap
  -- `none` is a trap.
  pub set_bounds : Cap → ℕ → Option Cap
  pub seal : Cap → Cap → Option Cap
  pub unseal : Cap → Cap → Option Cap

-- What the instruction set documents of them.
pub record Laws (c : Cheri) : Type 0 where
  pub default_base : c.get_base c.get_default ≡ 0
  pub default_unsealed : c.get_sealed c.get_default ≡ false
  pub get_offset-set_offset :
      (p : c.Cap) (n : ℕ)
      → c.get_sealed p ≡ false
      → n < two_64
      → c.get_offset (c.set_offset p n) ≡ n
  pub get_base-set_offset : (p : c.Cap) (n : ℕ) → c.get_base (c.set_offset p n) ≡ c.get_base p
  pub unseal-seal : (p s q : c.Cap) → c.seal p s ≡ some q → c.unseal q s ≡ some p
