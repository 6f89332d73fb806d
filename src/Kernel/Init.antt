-- ===== src/Kernel/Init.antt =====
-- kernel/src/init.c: what the kernel does before the first activation runs. The copy of the boot
-- information and the installation of the exception vectors only move bytes, and are left out.
use cherios.Base.{ok, ◌≡◌, subst, Res, ◌>>=◌, >>=-eq-ok}
use cherios.Cheri.{Cheri, Laws}
use cherios.Kernel.State.{Kernel, Frame}
use cherios.Kernel.Inv.{IsRunning, Resumes}
use cherios.Kernel.Sched.{sched_reschedule}
use cherios.Kernel.Sched.Resume.{sched_reschedule-Resumes}
use cherios.Kernel.Env.{Layout, Fits, Text}
use cherios.Kernel.Act.{act_init}
use cherios.Kernel.Act.Start.{IsBlank, act_init-IsRunning}

-- The frames and the names that `act_init` registers the two first activations with.
pub record BootInfo (c : Cheri) : Type 0 where
  pub dummy_frame : Frame c.Cap
  pub kernel_name : Text c
  pub init_frame : Frame c.Cap
  pub init_name : Text c

module _ (c : Cheri) (l : Layout) where
  open c use {Cap}

  unfoldable pub cherios_main : Kernel Cap → BootInfo c → Res (Kernel Cap)
  cherios_main k b = do
    k1 ← act_init c l k b.dummy_frame b.kernel_name b.init_frame b.init_name
    sched_reschedule k1 1

module _ (c : Cheri) (laws : Laws c) (l : Layout) (fits : Fits l) where
  open c use {Cap}

  resumed : (r : Res (Kernel Cap)) (k : Kernel Cap) → Resumes r → r ≡ ok k → IsRunning k
  resumed r k v e = subst Resumes e v

  -- If the start-up code of the kernel returns, an activation runs in a sound kernel.
  pub cherios_main-IsRunning :
      (k : Kernel Cap) (b : BootInfo c) (k' : Kernel Cap)
      → IsBlank k
      → cherios_main c l k b ≡ ok k'
      → IsRunning k'
  unfolding cherios_main
  cherios_main-IsRunning k b k' blank e =
      let (k1, first, second) =
        >>=-eq-ok (act_init c l k b.dummy_frame b.kernel_name b.init_frame b.init_name) _ e in
      let (v, _) = act_init-IsRunning c laws l fits k _ _ _ _ k1 blank first in
      resumed (sched_reschedule k1 1) k' (sched_reschedule-Resumes k1 1 v.sound) second
