-- ===== src/Libuser/Namespace.antt =====
-- libuser/src/namespace.c: a program's calls of the name server, by its reference and identifier,
-- `namespace_ref` and `namespace_id`. An `int` is its 32-bit pattern.
use cherios.Base.{ℕ}
use cherios.Cheri.{Cheri}
use cherios.Kernel.State.{Frame}
use cherios.Libuser.{Stub, ccall_r_c, ccall_rcc_r}
use cherios.Libuser.Server.{sign_extend, as_int}

module _ (c : Cheri) (f : Frame c.Cap) (namespace_ref namespace_id : c.Cap) where
  open c use {Cap}

  unfoldable pub namespace_register : ℕ → Cap → Cap → Stub Cap ℕ
  unfolding ccall_rcc_r
  namespace_register nb ref id =
      let call = ccall_rcc_r c f namespace_ref namespace_id 0 (sign_extend nb) ref id in
      record { enters = call.enters; returns = λ g. as_int (call.returns g) }

  unfoldable pub namespace_get_ref : ℕ → Stub Cap Cap
  unfolding ccall_r_c
  namespace_get_ref nb = ccall_r_c c f namespace_ref namespace_id 1 (sign_extend nb)

  unfoldable pub namespace_get_id : ℕ → Stub Cap Cap
  unfolding ccall_r_c
  namespace_get_id nb = ccall_r_c c f namespace_ref namespace_id 2 (sign_extend nb)
