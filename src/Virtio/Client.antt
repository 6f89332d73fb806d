-- ===== src/Virtio/Client.antt =====
-- include/virtioblk.h: the file system's calls of the block driver, whose reference and identifier
-- are `vblk_ref` and `vblk_id`. The sector is a `size_t`, and the parameter of `ccall_rc_r` that it
-- is passed for an `int`.
use cherios.Base.{ℕ, ◌-◌, two_64}
use cherios.Cheri.{Cheri}
use cherios.Kernel.State.{Frame}
use cherios.Libuser.{Stub, ccall_c_c, ccall_n_r, ccall_rc_r}
use cherios.Libuser.Server.{sign_extend, as_int}

module _ (c : Cheri) (f : Frame c.Cap) (vblk_ref vblk_id : c.Cap) where
  open c use {Cap}

  -- The `int` of a result
  abbrev int_result : Stub Cap ℕ → Stub Cap ℕ
  int_result s = record { enters = s.enters; returns = λ g. as_int (s.returns g) }

  unfoldable pub virtio_blk_session : Cap → Stub Cap Cap
  unfolding ccall_c_c
  virtio_blk_session mmio_cap = ccall_c_c c f vblk_ref vblk_id (two_64 - 1) mmio_cap

  unfoldable pub virtio_blk_init : Stub Cap ℕ
  unfolding ccall_n_r
  virtio_blk_init = int_result (ccall_n_r c f vblk_ref vblk_id 0)

  unfoldable pub virtio_read : Cap → ℕ → Stub Cap ℕ
  unfolding ccall_rc_r
  virtio_read buf sector =
      int_result (ccall_rc_r c f vblk_ref vblk_id 1 (sign_extend (as_int sector)) buf)

  unfoldable pub virtio_write : Cap → ℕ → Stub Cap ℕ
  unfolding ccall_rc_r
  virtio_write buf sector =
      int_result (ccall_rc_r c f vblk_ref vblk_id 2 (sign_extend (as_int sector)) buf)

  unfoldable pub virtio_blk_status : Stub Cap ℕ
  unfolding ccall_n_r
  virtio_blk_status = int_result (ccall_n_r c f vblk_ref vblk_id 3)

  unfoldable pub virtio_blk_size : Stub Cap ℕ
  unfolding ccall_n_r
  virtio_blk_size = ccall_n_r c f vblk_ref vblk_id 4
