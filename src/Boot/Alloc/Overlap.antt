-- ===== src/Boot/Alloc/Overlap.antt =====
-- Where the allocations of the pool lie.
use cherios.Base.{
  false, ◌-◌, ℕ, ◌+◌, ◌%◌, ◌≤◌, ◌<◌, ◌≡◌, some, ok, ltb, if◌then◌else◌, two_64, arith,
}
use cherios.Cheri.{Cheri}
use cherios.Boot.Alloc.{pool_size, Pool, pointer, align_upwards, up_size, init_alloc_core}

-- The allocation's bounds hold the bytes asked for.
pub up_size-covers : (s : ℕ) → s + 0x1000 < two_64 → s < up_size s
unfolding up_size
up_size-covers s h = omega arith

-- What the instruction set documents of the instruction that sets bounds.
pub record BoundsLaws (c : Cheri) : Type 0 where
  pub base :
      (p q : c.Cap) (n : ℕ)
      → c.set_bounds p n ≡ some q
      → c.get_base q ≡ (c.get_base p + c.get_offset p) % two_64
  pub len : (p q : c.Cap) (n : ℕ) → c.set_bounds p n ≡ some q → c.get_len q ≡ n

module _ (c : Cheri) where
  open c use {Cap}

  -- The pool's state is sane: the next allocation begins on a page, at most a page past the pool.
  pub record IsPool (p : Pool Cap) : Type 0 where
    pub aligned : p.pool_next % 4096 ≡ 0
    pub begun : p.pool_next ≤ p.pool_end + 4096
    pub below : p.pool_end + 4096 + 4096 < two_64

  -- What a successful allocation has done.
  pub init_alloc_core-inv :
      (p p' : Pool Cap) (s : ℕ) (q : Cap)
      → init_alloc_core c p s ≡ ok (some q, p')
      → ((p.pool_next + s) % two_64 < p.pool_end)
        × (p' ≡ record p { pool_next = align_upwards ((p.pool_next + s) % two_64) 4096 })
  unfolding init_alloc_core
  init_alloc_core-inv p p' s q e = ground arith

  pub init_alloc_core-bounds :
      (p p' : Pool Cap) (s : ℕ) (q : Cap)
      → init_alloc_core c p s ≡ ok (some q, p')
      → c.set_bounds (pointer c p p.pool_next) (up_size s) ≡ some q
  unfolding init_alloc_core
  init_alloc_core-bounds p p' s q e = ground arith

  -- An allocation that succeeds keeps the pool sane and moves it past the bytes asked for.
  pub init_alloc_core-IsPool :
      (p p' : Pool Cap) (s : ℕ) (q : Cap)
      → IsPool p
      → s < two_64
      → p.pool_next + s < two_64
      → init_alloc_core c p s ≡ ok (some q, p')
      → IsPool p' × (p.pool_next + s ≤ p'.pool_next) × (p.pool_next + s < p.pool_end)
  unfolding align_upwards
  init_alloc_core-IsPool p p' s q v small sum e =
      let (room, next) = init_alloc_core-inv p p' s q e in ground (arith, room, next)

  pub init_alloc_core-ends :
      (p p' : Pool Cap) (s : ℕ) (q : Cap)
      → IsPool p
      → p.pool_next + s + 4096 < two_64
      → init_alloc_core c p s ≡ ok (some q, p')
      → p.pool_next + up_size s ≡ (if ltb 0 (s % 4096) then p'.pool_next else p'.pool_next + 4096)
  unfolding align_upwards up_size
  init_alloc_core-ends p p' s q v sum e =
      let (room, next) = init_alloc_core-inv p p' s q e in ground (arith, room, next)

  -- A pool that begins on a page also ends on one, and the next allocation begins inside it or at
  -- its end.
  pub record IsInside (p : Pool Cap) : Type 0 where
    pub sane : IsPool p
    pub ended : p.pool_end % 4096 ≡ 0
    pub inside : p.pool_next ≤ p.pool_end

  -- The pool at the beginning
  abbrev pub first : Cap → Cap → Pool Cap
  first array bounded =
      let start = c.get_base array + c.get_offset array in
      record {
        pool_start = c.and_perm bounded (two_64 - 3);
        pool_next = start;
        pool_end = start + pool_size;
        system_alloc = false;
      }

  -- The pool after an allocation
  abbrev moved : Pool Cap → ℕ → Pool Cap
  moved p s = record p { pool_next = align_upwards ((p.pool_next + s) % two_64) 4096 }
