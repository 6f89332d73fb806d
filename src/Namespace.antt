-- ===== src/Namespace.antt =====
-- namespace/src/namespace.c: the directory of services, 128 ports that each bind a reference and
-- an identifier once. An `int` is its 32-bit pattern, and -1 is 2^32 - 1.
pub mod Ports
pub mod Service
pub mod Directory
use cherios.Base.{
  ℕ, ◌+◌, ◌-◌, ◌^◌, Bool, true, false, not, ◌&&◌, ◌||◌, update, ◌==◌, leb, if◌then◌else◌, two_32,
}
use cherios.Cheri.{Cheri}

-- `bind_t`
pub record Binding (Cap : Type 0) : Type 0 where
  pub act_reference : Cap
  pub act_default_id : Cap

abbrev pub bind_len : ℕ
bind_len = 0x80

unfoldable pub validate_idx : ℕ → Bool
validate_idx nb = if leb (2 ^ 31) nb then false else (if leb bind_len nb then false else true)

module _ (c : Cheri) where
  open c use {Cap}

  unfoldable pub ns_init : ℕ → Binding Cap
  ns_init nb = record { act_reference = c.null; act_default_id = c.null }

  unfoldable pub validate_act_caps : Cap → Cap → Bool
  validate_act_caps act_reference act_default_id =
      if not (c.get_tag act_reference)
      then false
      else (if not (c.get_tag act_default_id)
          then false
          else (if not (c.get_sealed act_reference)
              then false
              else (if not (c.get_sealed act_default_id)
                  then false
                  else c.get_type act_reference == c.get_type act_default_id)))

  unfoldable pub ns_get_reference : (ℕ → Binding Cap) → ℕ → Cap
  unfolding validate_idx
  ns_get_reference bind nb = if validate_idx nb then (bind nb).act_reference else c.null

  unfoldable pub ns_get_identifier : (ℕ → Binding Cap) → ℕ → Cap
  unfolding validate_idx
  ns_get_identifier bind nb = if validate_idx nb then (bind nb).act_default_id else c.null

  unfoldable pub ns_register_core : (ℕ → Binding Cap) → ℕ → Cap → Cap → ℕ × (ℕ → Binding Cap)
  ns_register_core bind nb act_reference act_default_id =
      if not (c.is_null (bind nb).act_reference) then (two_32 - 1, bind) else (
        0,
        update bind nb (record { act_reference = act_reference; act_default_id = act_default_id }),
      )

  unfoldable pub ns_register : (ℕ → Binding Cap) → ℕ → Cap → Cap → ℕ × (ℕ → Binding Cap)
  unfolding validate_idx validate_act_caps ns_register_core
  ns_register bind nb act_reference act_default_id =
      if not (validate_idx nb) || not (validate_act_caps act_reference act_default_id)
      then (two_32 - 1, bind)
      else ns_register_core bind nb act_reference act_default_id
