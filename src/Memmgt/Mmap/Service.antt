-- ===== src/Memmgt/Mmap/Service.antt =====
-- `__mmap`, `__munmap`, `mfree` and `minit` against the list of chunks.
use cherios.Base.{
  ℕ, ◌+◌, ◌-◌, ◌*◌, ◌/◌, ◌%◌, ◌≤◌, ◌<◌, ◌≡◌, refl, ◌≢◌, true, false, Option, none, some, List, [],
  ◌∷◌, Bool-cases, if◌then◌else◌, Res, ok, halt, trap, panic, assertion, overrun, diverged, leb,
  ltb, ◌==◌, update, bit_and, arith, inl, inr, two_64,
}
use cherios.Cheri.{Cheri}
use cherios.Memmgt.Mmap.{
  Pages, page_unused, pagesz, page_t_size, perm_soft_1, perm_store, may_store, bzero, pages_for,
  address, addr2page, release, munmap, minit,
}
use cherios.Memmgt.Mmap.Chunks.{Chunk, locate, first_fit}
use cherios.Memmgt.Mmap.Fit.{Repr}

-- The pages for a length cover it, and no whole page is left over.
pub pages_for-bounds :
    (length : ℕ)
    → length + pagesz ≤ two_64
    → (length ≤ pages_for length * pagesz) × (pages_for length * pagesz < length + pagesz)
unfolding pages_for
pages_for-bounds length h = ground arith

pub pages_for-whole :
    (length : ℕ)
    → length + pagesz ≤ two_64
    → length % pagesz ≡ 0
    → pages_for length * pagesz ≡ length
pages_for-whole length h e = omega (arith, pages_for-bounds length h)

pub pages_for-part :
    (length : ℕ)
    → length + pagesz ≤ two_64
    → length % pagesz ≢ 0
    → pages_for length * pagesz ≢ length
pages_for-part length h e = omega (arith, pages_for-bounds length h)

-- The chunk of a mapping: its pages and the spare one.
abbrev pub wanted_for : ℕ → ℕ
wanted_for length = pages_for length + 1

module _ (c : Cheri) where
  open c use {Cap}

  -- The state shows the chunks, and its pages lie in the address space.
  pub record Shows (s : Pages Cap) (cs : List Chunk) : Type 0 where
    pub repr : Repr s.book s.pages_nb 0 cs
    pub small : s.pages_nb * pagesz < two_64

  -- What a mapping does: MAP_FAILED leaves the state alone and means that no chunk fits; a
  -- capability means that the first chunk that fits has been cut. Bounds may trap.
  abbrev pub Serves : Pages Cap → List Chunk → ℕ → Res (Option Cap × Pages Cap) → Type 0
  Serves s cs wanted (ok (none, s')) = (locate wanted 0 cs ≡ none) × (s' ≡ s)
  Serves s cs wanted (ok (some p, s')) =
      ((q : ℕ) × (locate wanted 0 cs ≡ some q)) × Shows s' (first_fit wanted cs)
  Serves s cs wanted (halt trap) = Unit
  Serves s cs wanted (halt panic) = ⊥
  Serves s cs wanted (halt assertion) = ⊥
  Serves s cs wanted (halt overrun) = ⊥
  Serves s cs wanted (halt diverged) = ⊥

  -- Where a chunk lies.
  pub record IsMapped (s : Pages Cap) (addr : Cap) (q length : ℕ) : Type 0 where
    pub at : address c addr ≡ (address c s.pool + q * pagesz) % two_64
    pub inside : q * pagesz < two_64
    pub len : (s.book q).len ≡ wanted_for length
    pub may_free : bit_and (c.get_perm addr) perm_soft_1 ≢ 0
    pub short : length + pagesz + pagesz ≤ two_64

  -- A capability through which as many bytes may be stored as its bounds have: the mapping may be
  -- written, and the capability points to its beginning.
  pub record IsWritable (addr : Cap) (length : ℕ) : Type 0 where
    pub tagged : c.get_tag addr ≡ true
    pub unsealed : c.get_sealed addr ≡ false
    pub may_write : bit_and (c.get_perm addr) perm_store ≢ 0
    pub at_base : c.get_offset addr ≡ 0
    pub len : c.get_len addr ≡ length

  bzero-ok :
      (addr : Cap) (length n : ℕ) → IsWritable addr length → n ≤ length → bzero c addr n ≡ ok tt
  unfolding bzero may_store
  bzero-ok addr length n w h =
      let may : (bit_and (c.get_perm addr) perm_store == 0) ≡ false = ground (arith, w.may_write) in
      rw (w.tagged, w.unsealed, may) (ground (arith, w.at_base, w.len))

  bzero-traps :
      (addr : Cap) (length n : ℕ) → IsWritable addr length → length < n → bzero c addr n ≡ halt trap
  unfolding bzero may_store
  bzero-traps addr length n w h =
      let may : (bit_and (c.get_perm addr) perm_store == 0) ≡ false = ground (arith, w.may_write) in
      rw (w.tagged, w.unsealed, may) (ground (arith, w.at_base, w.len))

  addr2page-at :
      (s : Pages Cap) (addr : Cap) (q : ℕ)
      → address c addr ≡ (address c s.pool + q * pagesz) % two_64
      → q * pagesz < two_64
      → addr2page c s addr ≡ ok q
  unfolding addr2page
  addr2page-at s addr q e lt =
      let page : (address c addr + two_64 - address c s.pool) % two_64 / pagesz ≡ q = omega arith in
      rw page (ground arith)

  -- Unmapping a mapping whose length is a multiple of the page size succeeds and releases its chunk.
  pub munmap-whole :
      (s : Pages Cap) (addr : Cap) (q length : ℕ)
      → IsMapped s addr q length
      → IsWritable addr length
      → length % pagesz ≡ 0
      → munmap c s addr length ≡ ok (0, release c s q)
  unfolding munmap
  munmap-whole s addr q length v w e =
      let cleared = bzero-ok addr length length w (omega arith) in
      let at = addr2page-at s addr q v.at v.inside in
      let may : (bit_and (c.get_perm addr) perm_soft_1 == 0) ≡ false = ground (arith, v.may_free) in
      let bounds = pages_for-bounds length (omega (arith, v.short)) in
      let sum : (length + pagesz) % two_64 ≡ length + pagesz = omega (arith, v.short) in
      let same : (length + pagesz == pagesz * (s.book q).len % two_64) ≡ true =
        ground (arith, v.len, v.short, bounds, pages_for-whole length (omega (arith, v.short)) e) in
      rw (may, cleared, sum, at, same) refl

  -- Unmapping a mapping whose length is no multiple of the page size, though the chunk has the size
  -- that `__mmap` gives it and the mapping may be written, fails an assertion.
  pub munmap-part :
      (s : Pages Cap) (addr : Cap) (q length : ℕ)
      → IsMapped s addr q length
      → IsWritable addr length
      → length % pagesz ≢ 0
      → munmap c s addr length ≡ halt assertion
  unfolding munmap
  munmap-part s addr q length v w e =
      let cleared = bzero-ok addr length length w (omega arith) in
      let at = addr2page-at s addr q v.at v.inside in
      let may : (bit_and (c.get_perm addr) perm_soft_1 == 0) ≡ false = ground (arith, v.may_free) in
      let bounds = pages_for-bounds length (omega (arith, v.short)) in
      let sum : (length + pagesz) % two_64 ≡ length + pagesz = omega (arith, v.short) in
      let same : (length + pagesz == pagesz * (s.book q).len % two_64) ≡ false =
        ground (arith, v.len, v.short, bounds, pages_for-part length (omega (arith, v.short)) e) in
      rw (may, cleared, sum, at, same) refl

  -- Unmapping it under another length traps where memory behind the mapping is to be cleared, and
  -- otherwise fails an assertion.
  pub munmap-other :
      (s : Pages Cap) (addr : Cap) (q length other : ℕ)
      → IsMapped s addr q length
      → IsWritable addr length
      → length % pagesz ≡ 0
      → other < two_64
      → other ≢ length
      → munmap c s addr other ≡ (if ltb length other then halt trap else halt assertion)
  unfolding munmap
  munmap-other s addr q length other v w e low ne =
      let at = addr2page-at s addr q v.at v.inside in
      let may : (bit_and (c.get_perm addr) perm_soft_1 == 0) ≡ false = ground (arith, v.may_free) in
      let bounds = pages_for-bounds length (omega (arith, v.short)) in
      let size : pagesz * (s.book q).len ≡ length + pagesz =
        omega (arith, v.len, pages_for-whole length (omega (arith, v.short)) e) in
      let differs : ((other + pagesz) % two_64 == pagesz * (s.book q).len % two_64) ≡ false =
        ground (arith, size, v.short) in
      elim (Bool-cases (ltb length other)) [
        | inl past ↦ rw (may, past, bzero-traps addr length other w (ground arith)) refl
        | inr inside ↦
            rw (may, inside, bzero-ok addr length other w (ground arith), at, differs) refl
      ]

  -- How many pages a heap holds, with their entries of the book.
  abbrev pub pages_of : ℕ → ℕ
  pages_of length = length / (pagesz + page_t_size)

  -- What `minit` asks of the heap it is given.
  pub record IsHeap (heap pool book : Cap) : Type 0 where
    pub aligned : address c heap % pagesz ≡ 0
    pub at_base : c.get_offset heap ≡ 0
    pub large : pagesz + page_t_size ≤ c.get_len heap
    pub below : c.get_len heap < two_64
    pub pool_made : c.set_bounds heap (pages_of (c.get_len heap) * pagesz) ≡ some pool
    pub book_made :
        c.set_bounds
          (c.inc_offset heap (pages_of (c.get_len heap) * pagesz))
          (pages_of (c.get_len heap) * page_t_size)
        ≡ some book

  -- From such a heap `minit` makes a pool that is one free chunk, and the pool and the book
  -- together fit the heap.
  pub minit-Shows :
      (s : Pages Cap) (heap pool book : Cap)
      → IsHeap heap pool book
      → (s' : Pages Cap) × (minit c s heap ≡ ok s')
        × Shows s' (record { size = s'.pages_nb; free = true } ∷ [])
        × (s'.pages_nb * pagesz + s'.pages_nb * page_t_size ≤ c.get_len heap)
  unfolding minit
  minit-Shows s heap pool book v =
      let n = pages_of (c.get_len heap) in
      let some_pages : ltb 0 n ≡ true = ground (arith, v.large) in
      let fit : leb (n * page_t_size + n * pagesz) (c.get_len heap) ≡ true = ground arith in
      let begins : (address c heap % pagesz == 0) ≡ true = ground (arith, v.aligned) in
      let base : (c.get_offset heap == 0) ≡ true = ground (arith, v.at_base) in
      (
        record s {
          pool = pool;
          pages_nb = n;
          book = update s.book 0 (record (s.book 0) { status = page_unused; len = n });
        },
        rw (begins, base, some_pages, fit, v.pool_made, v.book_made) refl,
        record {
          repr = (ground arith, ground arith, ground arith, ground arith);
          small = omega (arith, v.below);
        },
        omega arith,
      )
