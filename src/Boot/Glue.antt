-- ===== src/Boot/Glue.antt =====
-- boot/src/init/glue.c, and `register_ns` of memmgt/src/main.c: init tells the memory manager, which
-- starts first, who the name server is, and the memory manager registers there for port 3.
use cherios.Base.{ℕ, ◌-◌, two_64}
use cherios.Cheri.{Cheri}
use cherios.Kernel.State.{Frame}
use cherios.Libuser.{Stub, ccall_cc_n}
use cherios.Libuser.Namespace.{namespace_register}
use cherios.Boot.Launch.{Host}

module _ (c : Cheri) (h : Host c.Cap) (f : Frame c.Cap) where
  open c use {Cap}

  unfoldable pub glue_memmgt : Cap → Cap → Stub Cap (Unit {0})
  unfolding ccall_cc_n
  glue_memmgt memmgt_ctrl ns_ctrl =
      ccall_cc_n c f (h.get_ref memmgt_ctrl) (h.get_id memmgt_ctrl) (two_64 - 3) (h.get_ref ns_ctrl)
        (h.get_id ns_ctrl)

-- The call that `register_ns` makes, with the memory manager's own reference and identifier.
module _ (c : Cheri) (f : Frame c.Cap) (act_self_ref act_self_id : c.Cap) where
  open c use {Cap}

  unfoldable pub register_ns : Cap → Cap → Stub Cap ℕ
  unfolding namespace_register
  register_ns ns_ref ns_id = namespace_register c f ns_ref ns_id 3 act_self_ref act_self_id
