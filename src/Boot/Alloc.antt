-- ===== src/Boot/Alloc.antt =====
-- boot/src/init/alloc.c: the pool from which init allocates until the memory manager runs. `mmap`
-- of libuser and the references that it is given are parameters.
pub mod Overlap
use cherios.Base.{
  ℕ, ◌+◌, ◌-◌, ◌*◌, ◌/◌, ◌%◌, ◌<◌, Bool, true, false, not, Option, none, some, Res, ok, or_trap,
  ◌>>=◌, leb, ltb, if◌then◌else◌, two_64,
}
use cherios.Cheri.{Cheri}

-- `pool_size`
abbrev pub pool_size : ℕ
pool_size = 1024 * 160

-- `align_upwards`, on addresses
unfoldable pub align_upwards : ℕ → ℕ → ℕ
align_upwards addr align =
    let offset = addr % align in if ltb 0 offset then addr + (align - offset) else addr

-- `upSize`, the bounds that an allocation gets: `(s + 0x1000) & ~0xfff`
unfoldable pub up_size : ℕ → ℕ
up_size s = (s + 0x1000) % two_64 / 0x1000 * 0x1000

-- `pool_next` and `pool_end` as addresses, `pool_start` as the capability, and `system_alloc`
pub record Pool (Cap : Type 0) : Type 0 where
  pub pool_start : Cap
  pub pool_next : ℕ
  pub pool_end : ℕ
  pub system_alloc : Bool

module _ (c : Cheri) where
  open c use {Cap}

  -- The pointer into the pool at an address
  abbrev pub pointer : Pool Cap → ℕ → Cap
  pointer p addr = c.set_offset p.pool_start (addr - c.get_base p.pool_start)

  unfoldable pub init_alloc_core : Pool Cap → ℕ → Res (Option Cap × Pool Cap)
  unfolding align_upwards up_size
  init_alloc_core p s = if leb p.pool_end ((p.pool_next + s) % two_64) then ok (none, p) else (do
    q ← or_trap (c.set_bounds (pointer p p.pool_next) (up_size s))
    ok (some q, record p { pool_next = align_upwards ((p.pool_next + s) % two_64) 4096 }))

  -- `pool` is the static array. Its bytes are not modelled.
  unfoldable pub init_alloc_init : Cap → Res (Pool Cap)
  init_alloc_init pool = do
    bounded ← or_trap (c.set_bounds pool pool_size)
    let start = c.get_base pool + c.get_offset pool
    ok (record {
      pool_start = c.and_perm bounded (two_64 - 3);
      pool_next = start;
      pool_end = start + pool_size;
      system_alloc = false;
    })

  unfoldable pub init_alloc_enable_system : Pool Cap → Pool Cap
  init_alloc_enable_system p = record p { system_alloc = true }

  -- `mmap` is what the memory manager answers, `none` for MAP_FAILED.
  unfoldable pub init_alloc : (ℕ → Option Cap) → Pool Cap → ℕ → Res (Option Cap × Pool Cap)
  unfolding init_alloc_core
  init_alloc mmap p s = if p.system_alloc then ok (mmap s, p) else init_alloc_core p s
