-- ===== src/Kernel/Exceptions/Reach.antt =====
-- The kernel's runs: start-up, then user code and exceptions in any order.
use cherios.Base.{◌≡◌, subst, Res, ok}
use cherios.Cheri.{Cheri, Laws}
use cherios.Kernel.State.{Kernel, Frame, set_current}
use cherios.Kernel.Inv.{IsRunning, Contained}
use cherios.Kernel.Env.{Layout, Fits}
use cherios.Kernel.Act.Start.{IsBlank}
use cherios.Kernel.Init.{BootInfo, cherios_main, cherios_main-IsRunning}
use cherios.Kernel.Ccall.Deliver.{reframed-IsRunning}
use cherios.Kernel.Syscalls.{UserMemory}
use cherios.Kernel.Exceptions.{Hardware, kernel_exception}
use cherios.Kernel.Exceptions.Safe.{Allowed, kernel_exception-Contained}

module _ (c : Cheri) (laws : Laws c) (l : Layout) (fits : Fits l) where
  open c use {Cap}

  -- What the kernel gets to: after start-up, user code changes the registers of the activation that
  -- runs, and exceptions enter the kernel.
  pub data Reach : Kernel Cap → Type 1 where
    boot :
        (k : Kernel Cap) (b : BootInfo c) (k' : Kernel Cap)
        → IsBlank k
        → cherios_main c l k b ≡ ok k'
        → Reach k'
    user : (k : Kernel Cap) (f : Frame Cap) → Reach k → Reach (set_current k f)
    exception :
        (u : UserMemory c) (hw : Hardware) (k k' : Kernel Cap)
        → Reach k
        → Allowed c laws l fits u k hw
        → kernel_exception c l u k hw ≡ ok k'
        → Reach k'

  contained : (r : Res (Kernel Cap)) (k : Kernel Cap) → Contained r → r ≡ ok k → IsRunning k
  contained r k v e = subst Contained e v

  -- In every state that start-up, user code and allowed exceptions lead to, an activation runs in a
  -- sound kernel.
  pub Reach-IsRunning : (k : Kernel Cap) → Reach k → IsRunning k
  Reach-IsRunning k (boot k0 b k' blank e) = cherios_main-IsRunning c laws l fits k0 b k' blank e
  Reach-IsRunning k (user k0 f r) = reframed-IsRunning k0 _ (Reach-IsRunning k0 r)
  Reach-IsRunning k (exception u hw k0 k' r allowed e) =
      contained (kernel_exception c l u k0 hw) k'
        (kernel_exception-Contained c laws l fits u k0 hw (Reach-IsRunning k0 r) allowed) e
