-- ===== src/Memmgt/Mmap.antt =====
-- memmgt/src/mmap.c: pages handed out first fit, with a book that holds one entry per page, of
-- which the first of each chunk counts. Messages are not modelled. Of `bzero` the traps are, and not
-- the memory that it clears.
pub mod Chunks
pub mod Fit
pub mod Service
pub mod Cycle
use cherios.Base.{
  ℕ, zero, suc, ◌+◌, ◌-◌, ◌*◌, ◌/◌, ◌%◌, bit_and, bit_or, Bool, true, false, not, ◌&&◌, update,
  Option, none, some, Res, ok, halt, panic, trap, diverged, assert, or_trap, ◌>>=◌, ◌>>◌, ◌==◌, ltb,
  leb, if◌then◌else◌, two_64,
}
use cherios.Cheri.{Cheri}

-- `e_page_status`
pub data PageStatus : Type 0 where
  page_unused page_used page_released page_child : PageStatus

abbrev pub is_unused : PageStatus → Bool
is_unused page_unused = true
is_unused _ = false

-- `page_t`
pub record Page : Type 0 where
  pub status : PageStatus
  pub owner : ℕ
  pub len : ℕ
  pub prev : ℕ

-- `pagesz`, set by main.c, and the size of a `page_t`
abbrev pub pagesz : ℕ
pagesz = 4096

abbrev pub page_t_size : ℕ
page_t_size = 32

-- `pool`, `pages_nb`, `book` and `errno`
pub record Pages (Cap : Type 0) : Type 0 where
  pub pool : Cap
  pub pages_nb : ℕ
  pub book : ℕ → Page
  pub errno : ℕ

-- EINVAL, and the bits of include/sys/mman.h and include/cherireg.h
abbrev pub einval : ℕ
einval = 22

abbrev pub perm_soft_1 : ℕ
perm_soft_1 = 0x8000

-- CHERI_PERM_STORE
abbrev pub perm_store : ℕ
perm_store = 8

abbrev bit_is_set : ℕ → ℕ → Bool
bit_is_set flags bit = not (bit_and flags bit == 0)

-- `perms` from `prot`, on top of what the flags gave
unfoldable pub prot_perms : ℕ → ℕ → ℕ
prot_perms perms prot =
    let readable =
      if bit_is_set prot 1
      then (if bit_is_set prot 4 then bit_or perms 0x4 else bit_or (bit_or perms 0x4) 0x10)
      else perms in
    if bit_is_set prot 2
    then (if bit_is_set prot 8 then bit_or readable 0x8 else bit_or (bit_or readable 0x8) 0x20)
    else readable

-- `perms` from `flags`: `none` is EINVAL.
unfoldable pub flag_perms : ℕ → Option ℕ
flag_perms flags =
    if not (bit_is_set flags 4)
    then none
    else (if bit_is_set flags 1 && bit_is_set flags 2
        then none
        else (if bit_is_set flags 1
            then some (bit_or perm_soft_1 0x40)
            else (if bit_is_set flags 2 then some (bit_or perm_soft_1 0x1) else none)))

-- The pages for `length` bytes, before the spare one; arithmetic in `size_t`.
unfoldable pub pages_for : ℕ → ℕ
pages_for length =
    let whole = length / pagesz in
    if ltb (whole * pagesz % two_64) length then (whole + 1) % two_64 else whole

-- The search for a chunk: `none` when the pages are exhausted.
unfoldable pub find_space : ℕ → (ℕ → Page) → ℕ → ℕ → ℕ → Res (Option ℕ)
find_space zero book pages_nb wanted page = halt diverged
find_space (suc fuel) book pages_nb wanted page =
    let next = find_space fuel book pages_nb wanted ((page + (book page).len) % two_64) in
    if ltb page pages_nb
    then (if is_unused (book page).status
        then (if ltb (book page).len wanted then next else ok (some page))
        else next)
    else ok none

-- `found:` the chunk is used, and what is left of it becomes a chunk of its own.
unfoldable pub take_chunk : (ℕ → Page) → ℕ → ℕ → ℕ → Page
take_chunk book page wanted =
    let curr_len = (book page).len in
    let book1 = update book page (record (book page) { status = page_used; len = wanted }) in
    if ltb wanted curr_len
    then update book1 (page + wanted)
        (record (book1 (page + wanted)) { status = page_unused; len = curr_len - wanted })
    else book1

module _ (c : Cheri) where
  open c use {Cap}

  -- A pointer as a number
  abbrev pub address : Cap → ℕ
  address p = (c.get_base p + c.get_offset p) % two_64

  -- From `found:` on, with the permissions.
  unfoldable pub give_chunk : Pages Cap → ℕ → ℕ → ℕ → ℕ → Res (Option Cap × Pages Cap)
  unfolding take_chunk
  give_chunk s page wanted length perms = do
    let s1 = record s { book = take_chunk s.book page wanted }
    p ← or_trap (c.set_bounds (c.inc_offset s.pool (page * pagesz)) length)
    ok (some (c.and_perm p perms), s1)

  -- The end of the search; MAP_FAILED is `none`.
  unfoldable pub after_search : Pages Cap → Option ℕ → ℕ → ℕ → ℕ → Res (Option Cap × Pages Cap)
  unfolding give_chunk
  after_search s none wanted length perms = ok (none, s)
  after_search s (some page) wanted length perms = give_chunk s page wanted length perms

  unfoldable pub mmap_pages : Pages Cap → ℕ → ℕ → Res (Option Cap × Pages Cap)
  unfolding pages_for find_space after_search
  mmap_pages s length perms = do
    let pages_wanted = pages_for length
    assert (leb length (pages_wanted * pagesz % two_64))
    let wanted = (pages_wanted + 1) % two_64
    found ← find_space (s.pages_nb + 1) s.book s.pages_nb wanted 0
    after_search s found wanted length perms

  -- The first checks: `none` for EINVAL.
  unfoldable pub mmap_checked : Pages Cap → Option ℕ → ℕ → ℕ → Res (Option Cap × Pages Cap)
  unfolding prot_perms mmap_pages
  mmap_checked s none length prot = ok (none, record s { errno = einval })
  mmap_checked s (some perms) length prot = mmap_pages s length (prot_perms perms prot)

  unfoldable pub mmap : Pages Cap → Cap → ℕ → ℕ → ℕ → Res (Option Cap × Pages Cap)
  unfolding flag_perms mmap_checked
  mmap s addr length prot flags =
      if not (c.is_null addr) then halt panic else mmap_checked s (flag_perms flags) length prot

  unfoldable pub addr2page : Pages Cap → Cap → Res ℕ
  addr2page s addr = do
    let page = (address addr + two_64 - address s.pool) % two_64 / pagesz
    assert (address addr == (address s.pool + page * pagesz) % two_64)
    ok page

  unfoldable pub addr2chunk : Pages Cap → Cap → ℕ → Res ℕ
  unfolding addr2page
  addr2chunk s addr length = do
    page ← addr2page s addr
    assert (length == pagesz * (s.book page).len % two_64)
    ok page

  -- `book[page].status = page_unused`
  abbrev pub release : Pages Cap → ℕ → Pages Cap
  release s page = record s {
    book = update s.book page (record (s.book page) { status = page_unused });
  }

  -- The bytes may be stored through the capability: `bzero` traps where they may not.
  unfoldable pub may_store : Cap → ℕ → Bool
  may_store addr length =
      c.get_tag addr
      && not (c.get_sealed addr)
      && not (bit_and (c.get_perm addr) perm_store == 0)
      && leb (c.get_offset addr + length) (c.get_len addr)

  unfoldable pub bzero : Cap → ℕ → Res (Unit {0})
  unfolding may_store
  bzero addr length =
      if length == 0 then ok tt else (if may_store addr length then ok tt else halt trap)

  -- The result is 0 or, for -1, 2^64 - 1.
  unfoldable pub munmap : Pages Cap → Cap → ℕ → Res (ℕ × Pages Cap)
  unfolding bzero addr2chunk
  munmap s addr length =
      if bit_and (c.get_perm addr) perm_soft_1 == 0
      then ok (two_64 - 1, record s { errno = einval })
      else (do
        bzero addr length
        page ← addr2chunk s addr ((length + pagesz) % two_64)
        ok (0, release s page))

  unfoldable pub mfree : Pages Cap → Cap → Res (Pages Cap)
  unfolding addr2page
  mfree s addr = do page ← addr2page s addr; ok (release s page)

  unfoldable pub minit : Pages Cap → Cap → Res (Pages Cap)
  minit s heap = do
    assert (address heap % pagesz == 0)
    assert (c.get_offset heap == 0)
    let length = c.get_len heap
    let pages_nb = length / (pagesz + page_t_size)
    assert (ltb 0 pages_nb)
    let pool_len = pages_nb * pagesz
    pool ← or_trap (c.set_bounds heap pool_len)
    let book_len = pages_nb * page_t_size
    assert (leb (book_len + pool_len) length)
    _ ← or_trap (c.set_bounds (c.inc_offset heap pool_len) book_len)
    ok (record s {
      pool = pool;
      pages_nb = pages_nb;
      book = update s.book 0 (record (s.book 0) { status = page_unused; len = pages_nb });
    })
