-- ===== src/Kernel/Env.antt =====
-- What the kernel's code reads besides its own state: the address and the entry size of
-- `kernel_acts`, which the linker and the compiler choose, and the helpers of
-- kernel/include/kutils.h and include/cheric.h over the capability instructions.
use cherios.Base.{
  ℕ, ◌+◌, ◌-◌, ◌*◌, ◌/◌, ◌%◌, ◌≤◌, ◌<◌, bit_and, Bool, true, false, ◌&&◌, ◌==◌, leb, ltb,
  if◌then◌else◌, Res, ok, halt, overrun, or_trap, two_64,
}
use cherios.Cheri.{Cheri}
use cherios.Kernel.State.{max_activations}

pub record Layout : Type 0 where
  pub acts_base : ℕ
  pub act_size : ℕ

-- `kernel_acts` lies in the address space.
pub record Fits (l : Layout) : Type 0 where
  pub sized : 0 < l.act_size
  pub below : l.acts_base + max_activations * l.act_size ≤ two_64

-- An activation's name as the caller passes it: a capability and the characters behind it.
pub record Text (c : Cheri) : Type 0 where
  pub cap : c.Cap
  pub char : ℕ → ℕ

-- The object types of control references and of synchronous tokens.
abbrev pub otype_ctrl : ℕ
otype_ctrl = 42001

abbrev pub otype_sync : ℕ
otype_sync = 42000

module _ (c : Cheri) where
  open c use {Cap}

  unfoldable pub kernel_cap_to_exec : Cap → Cap
  kernel_cap_to_exec p = c.inc_offset (c.set_offset c.get_pcc (c.get_base p)) (c.get_offset p)

  unfoldable pub kernel_seal : Cap → ℕ → Res Cap
  kernel_seal p otype = or_trap (c.seal p (c.set_offset c.get_default otype))

  unfoldable pub kernel_unseal : Cap → ℕ → Res Cap
  kernel_unseal p otype = or_trap (c.unseal p (c.set_offset c.get_default otype))

  -- `VCAP_I`, and `VCAP`, which asks for an unsealed capability
  unfoldable pub vcap_i : Cap → ℕ → ℕ → Bool → Bool
  vcap_i cap len flags sealed =
      if c.get_tag cap
      then (if (if sealed then c.get_sealed cap else (if c.get_sealed cap then false else true))
          then (if ltb (c.get_len cap) len then false else bit_and (c.get_perm cap) flags == flags)
          else false)
      else false

  unfoldable pub vcap : Cap → ℕ → ℕ → Bool
  unfolding vcap_i
  vcap cap len flags = vcap_i cap len flags false

  module _ (l : Layout) where
    -- `kernel_acts + aid`, as an address
    abbrev pub act_address : ℕ → ℕ
    act_address aid = (l.acts_base + aid * l.act_size) % two_64

    -- The entry of `kernel_acts` that a pointer points to.
    unfoldable pub act_index : Cap → Res ℕ
    act_index p =
        let address = (c.get_base p + c.get_offset p) % two_64 in
        let index = (address - l.acts_base) / l.act_size in
        if leb l.acts_base address && (act_address index == address) && ltb index max_activations
        then ok index
        else halt overrun
