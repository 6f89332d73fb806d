-- ===== src/Memmgt/Client.antt =====
-- The memory manager as its clients see it: libuser/src/mmap.c and memmgt/src over the kernel.
use cherios.Base.{
  ℕ, ◌%◌, ◌^◌, ◌<◌, ◌≤◌, ◌≡◌, ◌≢◌, refl, halt, assertion, trap, ltb, if◌then◌else◌, Bool-cases, inl,
  inr, two_64, arith,
}
use cherios.Cheri.{Cheri, Laws}
use cherios.Kernel.State.{Kernel, Frame, set_current}
use cherios.Kernel.Env.{Layout}
use cherios.Libuser.Client.{Calls, kernel_ccall-Calls, Calls-IsCalled}
use cherios.Libuser.Server.{Method, Methods, sign_extend, as_int, exchange}
use cherios.Memmgt.Mmap
use cherios.Memmgt.Mmap.{Pages, Page, pagesz}
use cherios.Memmgt.Mmap.Service.{IsMapped, IsWritable, munmap-other}
use cherios.Memmgt.Methods.{mmgt_methods}

-- The length that `munmap` passes on, if it is not below 2^31
as_int-long : (n : ℕ) → 2 ^ 31 ≤ n → n < 2 ^ 63 → sign_extend (as_int n) ≢ n
as_int-long n h k e = ground arith

as_int-lt : (n : ℕ) → sign_extend (as_int n) < two_64
as_int-lt n = ground arith

module _ (c : Cheri) (laws : Laws c) (l : Layout) (failed : c.Cap)
    (register_ns : Method c.Cap (Pages c.Cap)) where
  open c use {Cap}

  abbrev pub methods : Methods Cap (Pages Cap)
  methods = mmgt_methods c failed register_ns

  -- A mapping of whole pages that are 2^31 bytes or more, and less than 2^63, cannot be unmapped: a
  -- program's `munmap` of it passes another length. If that is larger, the memory manager clears
  -- memory behind the mapping and traps, and if it is smaller, it fails an assertion; provided that
  -- the capability has the mapping's bounds and may be written.
  pub munmap-long :
      (k : Kernel Cap) (ref id addr : Cap) (f0 : Frame Cap) (target : ℕ) (bare_id bare t last : Cap)
      (s : Pages Cap) (q length : ℕ)
      → IsMapped c s addr q length
      → IsWritable c addr length
      → length % pagesz ≡ 0
      → 2 ^ 31 ≤ length
      → length < 2 ^ 63
      → let n = sign_extend (as_int length) in
        Calls c laws l k ref id 1 n 0 0 addr c.null c.null f0 target bare_id bare t
        → exchange c l methods (set_current k f0) (record { own = s; sync_token = last })
          ≡ (if ltb length n then halt trap else halt assertion)
  unfolding exchange mmgt_methods
  munmap-long k ref id addr f0 target bare_id bare t last s q length v w whole long below calls =
      let n = sign_extend (as_int length) in
      let passed = Calls-IsCalled c laws l k ref id 1 n 0 0 addr c.null c.null calls in
      let entered = kernel_ccall-Calls c laws l k ref id 1 n 0 0 addr c.null c.null calls in
      let stops =
        munmap-other c s addr q length n v w whole (as_int-lt length)
          (as_int-long length long below) in
      elim (Bool-cases (ltb length n)) [
        | inl past ↦ rw (entered, passed.method, passed.a0, passed.c3, stops, past) refl
        | inr inside ↦ rw (entered, passed.method, passed.a0, passed.c3, stops, inside) refl
      ]
