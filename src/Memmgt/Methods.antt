-- ===== src/Memmgt/Methods.antt =====
-- memmgt/src/main.c: the memory manager's methods, as messages reach them. MAP_FAILED is the
-- parameter `failed`. `register_ns` makes a call of its own, and is a parameter.
use cherios.Base.{◌∷◌, [], Option, none, some, ok, ◌>>=◌}
use cherios.Cheri.{Cheri}
use cherios.Memmgt.Mmap.{Pages, mmap, munmap}
use cherios.Libuser.Server.{Method, Methods, as_int, null_method, void_method}

module _ (c : Cheri) (failed : c.Cap) where
  open c use {Cap}

  abbrev pub mapped : Option Cap → Cap
  mapped none = failed
  mapped (some p) = p

  -- `__mmap` and `__munmap` on the registers
  unfoldable pub mmap_method : Method Cap (Pages Cap)
  mmap_method f s = do
    (p, pages) ← mmap c s.own f.c3 f.a0 (as_int f.a1) (as_int f.a2)
    ok (record f { c3 = mapped p }, record s { own = pages })

  unfoldable pub munmap_method : Method Cap (Pages Cap)
  munmap_method f s = do
    (ret, pages) ← munmap c s.own f.c3 f.a0
    ok (record f { v0 = ret }, record s { own = pages })

  unfoldable pub mmgt_methods : Method Cap (Pages Cap) → Methods Cap (Pages Cap)
  unfolding mmap_method munmap_method
  mmgt_methods register_ns = record {
    msg_methods = mmap_method ∷ munmap_method ∷ [];
    ctrl_methods = null_method ∷ void_method ∷ void_method ∷ register_ns ∷ [];
  }
