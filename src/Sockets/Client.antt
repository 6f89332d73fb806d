-- ===== src/Sockets/Client.antt =====
-- prga/src/sockets.c: a program's calls of the sockets, by their reference and the identifier that
-- the program was given, `s_cb` and `s_cs`. An `int` is its 32-bit pattern.
use cherios.Base.{ℕ}
use cherios.Cheri.{Cheri}
use cherios.Kernel.State.{Frame}
use cherios.Libuser.{Stub, ccall_n_r, ccall_rr_r, ccall_r_c, ccall_rc_r}
use cherios.Libuser.Server.{sign_extend, as_int}

module _ (c : Cheri) (f : Frame c.Cap) (s_cb s_cs : c.Cap) where
  open c use {Cap}

  -- The register as the `int` that the stub returns
  abbrev int_ret : Stub Cap ℕ → Stub Cap ℕ
  int_ret call = record { enters = call.enters; returns = λ g. as_int (call.returns g) }

  unfoldable pub socket : Stub Cap ℕ
  unfolding ccall_n_r
  socket = int_ret (ccall_n_r c f s_cb s_cs 0)

  unfoldable pub bind : ℕ → ℕ → Stub Cap ℕ
  unfolding ccall_rr_r
  bind socket port = int_ret (ccall_rr_r c f s_cb s_cs 1 (sign_extend socket) (sign_extend port))

  unfoldable pub connect : ℕ → ℕ → Stub Cap ℕ
  unfolding ccall_rr_r
  connect socket port = int_ret (ccall_rr_r c f s_cb s_cs 2 (sign_extend socket) (sign_extend port))

  unfoldable pub recfrom : ℕ → Stub Cap Cap
  unfolding ccall_r_c
  recfrom socket = ccall_r_c c f s_cb s_cs 3 (sign_extend socket)

  unfoldable pub sendto : ℕ → Cap → Stub Cap ℕ
  unfolding ccall_rc_r
  sendto socket msg = int_ret (ccall_rc_r c f s_cb s_cs 4 (sign_extend socket) msg)
