-- ===== src/Boot/Launch.antt =====
-- boot/src/init/init_utils.c: a module becomes an activation. The file system of init, the memory
-- manager's answers, the linker's symbols and the kernel's system calls are parameters.
pub mod Loads
pub mod Handed
pub mod Overlap
use cherios.Base.{
  ℕ, ◌+◌, ◌-◌, ◌%◌, ◌/◌, ◌*◌, List, [], ◌∷◌, Option, none, some, Res, ok, halt, assertion, or_trap,
  ◌>>=◌, ◌>>◌, if◌then◌else◌, two_64, bit_or,
}
use cherios.Cheri.{Cheri}
use cherios.Boot.Alloc.{Pool, init_alloc, up_size}
use cherios.Boot.Elf.{Ehdr, Block, Loaded, elf_check_supported, scan, elf_loader_mem}
use cherios.Boot.Modules.{ModuleType, m_memmgt, m_namespace, m_uart, m_fs, m_core, m_user, m_fence}

-- The registers that `init_act_create` sets; the others are zero.
pub record StartFrame (Cap : Type 0) : Type 0 where
  pub cf_pcc : Cap
  pub mf_pc : ℕ
  pub cf_c11 : Cap
  pub mf_sp : ℕ
  pub cf_c12 : Cap
  pub cf_c0 : Cap
  pub cf_c22 : Cap
  pub cf_c23 : Cap
  pub cf_c24 : Cap

-- An activation that init has made, and its first message.
pub record Started (Cap : Type 0) : Type 0 where
  pub type : ModuleType
  pub frame : StartFrame Cap
  pub rarg : ℕ
  pub carg : Cap
  pub ctrl : Cap

-- init's variables `ns_ref`, `ns_id` and the pool, and what has been started, newest first.
pub record Init (Cap : Type 0) : Type 0 where
  pub ns_ref : Cap
  pub ns_id : Cap
  pub pool : Pool Cap
  pub started : List (Started Cap)

-- CONSOLE_malta or CONSOLE_altera, with UART_BASE and UART_SIZE
pub data Console : Type 0 where
  malta altera : Console

abbrev pub uart_base : Console → ℕ
uart_base malta = 0x180003f8
uart_base altera = 0x7f000000

abbrev pub uart_size : Console → ℕ
uart_size malta = 0x40
uart_size altera = 0x08

-- What init calls: `load` of the file system, the memory manager's `mmap`, the bytes behind a
-- capability, the heap between the linker's symbols, and the kernel.
pub record Host (Cap : Type 0) : Type 0 where
  pub load : List ℕ → Option (Ehdr × (ℕ → ℕ))
  pub mmap : ℕ → Option Cap
  pub bytes : Cap → ℕ → ℕ
  pub start_heap : ℕ
  pub stop_heap : ℕ
  pub console : Console
  pub register : StartFrame Cap → List ℕ → Res Cap
  pub get_ref : Cap → Cap
  pub get_id : Cap → Cap

-- `mips_phys_to_uncached`
abbrev pub uncached : ℕ → ℕ
uncached address = bit_or address 0x9000000000000000

-- `& ~0xfff`
abbrev pub page_of : ℕ → ℕ
page_of n = n / 0x1000 * 0x1000

-- The permissions of the heap and of a program's code
abbrev pub heap_perms : ℕ
heap_perms = 0x807D

abbrev pub code_perms : ℕ
code_perms = 0x17

abbrev pub stack_size : ℕ
stack_size = 0x10000

-- What `elf_loader_mem` asks `alloc` for, if it gets so far.
unfoldable pub wants : Ehdr → Option ℕ
wants hdr =
    if elf_check_supported hdr
    then elim (scan hdr.segments 0 (two_64 - 1)) [ none ↦ none | some (size, low) ↦ some size ]
    else none

module _ (c : Cheri) (h : Host c.Cap) where
  open c use {Cap}

  -- The heap from the first page boundary on.
  unfoldable pub heap_cap : Res Cap
  heap_cap = do
    let heaplen = page_of ((h.stop_heap + two_64 - h.start_heap + two_64 - 0x1000) % two_64)
    heap ← or_trap (
        c.set_bounds (c.set_offset c.get_default (page_of ((h.start_heap + 0xfff) % two_64)))
          heaplen)
    ok (c.and_perm heap heap_perms)

  unfoldable pub get_act_cap : ModuleType → Res Cap
  unfolding heap_cap
  get_act_cap m_uart = or_trap (
      c.set_bounds (c.set_offset c.get_default (uncached (uart_base h.console)))
        (uart_size h.console))
  get_act_cap m_memmgt = heap_cap
  get_act_cap m_fs = or_trap (c.set_bounds (c.set_offset c.get_default (uncached 0x1e400000)) 0x200)
  get_act_cap _ = ok c.null

  -- A pointer as a number
  abbrev pub address : Cap → ℕ
  address p = (c.get_base p + c.get_offset p) % two_64

  abbrev pub block_of : Option Cap → Option Block
  block_of none = none
  block_of (some p) = some (record { size = c.get_len p; bytes = h.bytes p })

  unfoldable pub alloc_for : Pool Cap → Option ℕ → Res (Option Cap × Pool Cap)
  alloc_for pool none = ok (none, pool)
  alloc_for pool (some size) = init_alloc c h.mmap pool size

  -- `prgmp` and `entry`, `none` for NULL
  abbrev pub program : Option Cap → Option Loaded → Option (Cap × ℕ)
  program (some p) (some loaded) = some (p, loaded.entry)
  program _ _ = none

  unfoldable pub load_file : Pool Cap → Ehdr → (ℕ → ℕ) → Res (Option (Cap × ℕ) × Pool Cap)
  unfolding wants alloc_for
  load_file pool hdr file = do
    (o, pool1) ← alloc_for pool (wants hdr)
    r ← elf_loader_mem (λ size. block_of o) file hdr
    ok (program o r, pool1)

  unfoldable pub elf_loader : Pool Cap → Option (Ehdr × (ℕ → ℕ)) → Res (Option (Cap × ℕ) × Pool Cap)
  unfolding load_file
  elf_loader pool none = ok (none, pool)
  elf_loader pool (some (hdr, file)) = load_file pool hdr file

  -- `assert(0)` on NULL
  abbrev pub or_assert {ℓ} : {A : Type ℓ} → Option A → Res A
  or_assert none = halt assertion
  or_assert (some a) = ok a

  unfoldable pub init_act_create :
      List ℕ → Cap → Cap → Cap → Cap → Cap → Cap → Res (StartFrame Cap × Cap)
  init_act_create name c0 pcc stack act_cap ns_ref ns_id = do
    let frame : StartFrame Cap = record {
      cf_pcc = pcc;
      mf_pc = c.get_offset pcc;
      cf_c11 = stack;
      mf_sp = c.get_len stack;
      cf_c12 = pcc;
      cf_c0 = c0;
      cf_c22 = act_cap;
      cf_c23 = ns_ref;
      cf_c24 = ns_id;
    }
    ctrl ← h.register frame name
    ok (frame, ctrl)

  -- The program's code, from its first byte on: `prgmp` points to the entry.
  unfoldable pub code_cap : Cap → ℕ → Res Cap
  unfolding up_size
  code_cap prgmp entry = do
    let start = (address prgmp + two_64 - entry % two_64) % two_64
    bounded ← or_trap (c.set_bounds (c.set_offset c.get_pcc start) (up_size (c.get_len prgmp)))
    ok (c.and_perm (c.inc_offset bounded entry) code_perms)

  -- The name server's references are kept for the modules behind it.
  unfoldable pub keep_ns : Init Cap → ModuleType → Cap → Init Cap
  keep_ns s m_namespace ctrl = record s { ns_ref = h.get_ref ctrl; ns_id = h.get_id ctrl }
  keep_ns s _ ctrl = s

  -- The end of `load_module`: NULL is `none`.
  unfoldable pub launched : Init Cap → ModuleType → Cap → Option Cap × Init Cap
  unfolding keep_ns
  launched s type ctrl = if c.is_null ctrl then (none, s) else (some ctrl, keep_ns s type ctrl)

  unfoldable pub load_module :
      Init Cap → ModuleType → List ℕ → ℕ → Cap → Res (Option Cap × Init Cap)
  unfolding elf_loader code_cap get_act_cap init_act_create launched
  load_module s type file arg carg = do
    (found, pool1) ← elf_loader s.pool (h.load file)
    (block, entry) ← or_assert found
    let prgmp = c.inc_offset block entry
    (room, pool2) ← init_alloc c h.mmap pool1 stack_size
    stack ← or_assert room
    pcc ← code_cap prgmp entry
    act_cap ← get_act_cap type
    (frame, ctrl) ← init_act_create file (c.set_offset prgmp 0) pcc stack act_cap s.ns_ref s.ns_id
    let one : Started Cap = record {
      type = type;
      frame = frame;
      rarg = arg;
      carg = carg;
      ctrl = ctrl;
    }
    ok (launched (record s { pool = pool2; started = one ∷ s.started }) type ctrl)
