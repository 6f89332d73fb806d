-- ===== src/Libuser/Mmap.antt =====
-- libuser/src/mmap.c: a program's calls of the memory manager, by its reference and identifier,
-- `memmgt_ref` and `memmgt_id`, which the name server gives for port 3. `munmap` passes its
-- `size_t` for an `int`.
use cherios.Base.{ℕ}
use cherios.Cheri.{Cheri}
use cherios.Kernel.State.{Frame}
use cherios.Libuser.{Stub, ccall_rrrc_c, ccall_rc_r}
use cherios.Libuser.Server.{sign_extend, as_int}

module _ (c : Cheri) (f : Frame c.Cap) (memmgt_ref memmgt_id : c.Cap) where
  open c use {Cap}

  unfoldable pub mmap : Cap → ℕ → ℕ → ℕ → Stub Cap Cap
  unfolding ccall_rrrc_c
  mmap addr length prot flags =
      ccall_rrrc_c c f memmgt_ref memmgt_id 0 length (sign_extend prot) (sign_extend flags) addr

  unfoldable pub munmap : Cap → ℕ → Stub Cap ℕ
  unfolding ccall_rc_r
  munmap addr length =
      let call = ccall_rc_r c f memmgt_ref memmgt_id 1 (sign_extend (as_int length)) addr in
      record { enters = call.enters; returns = λ g. as_int (call.returns g) }
