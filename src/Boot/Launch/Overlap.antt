-- ===== src/Boot/Launch/Overlap.antt =====
-- Where the stacks lie that `load_module` of boot/src/init/init_utils.c takes from init's pool.
use cherios.Base.{◌+◌, ◌≤◌, ◌<◌, ◌≡◌, false, two_64}
use cherios.Cheri.{Cheri, Laws}
use cherios.Boot.Alloc.{Pool}
use cherios.Boot.Alloc.Overlap.{IsPool, BoundsLaws}

module _ (c : Cheri) (laws : Laws c) (b : BoundsLaws c) where
  open c use {Cap}

  -- A pool that serves init, from an unsealed capability.
  pub record Serving (p : Pool Cap) : Type 0 where
    pub sane : IsPool c p
    pub own : p.system_alloc ≡ false
    pub unsealed : c.get_sealed p.pool_start ≡ false
    pub above : c.get_base p.pool_start ≤ p.pool_next
    pub fits : p.pool_end + 0x20000 < two_64
