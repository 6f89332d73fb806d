-- ===== src/Boot/Elf.antt =====
-- boot/src/elf_loader.c: the loader that init and the boot code share. `Elf_Env` is a parameter:
-- `alloc` gives a block of memory, or `none` for NULL; messages only print.
pub mod Image
use cherios.Base.{
  ℕ, ◌+◌, ◌-◌, ◌%◌, Bool, true, false, ◌&&◌, ◌||◌, min, max, List, [], ◌∷◌, Option, none, some, Res,
  ok, halt, trap, ◌>>=◌, ◌==◌, ltb, leb, if◌then◌else◌, two_64,
}

-- `Elf64_Phdr`, and the kinds of segment that the loader tells apart
pub record Phdr : Type 0 where
  pub p_type : ℕ
  pub p_offset : ℕ
  pub p_vaddr : ℕ
  pub p_filesz : ℕ
  pub p_memsz : ℕ

-- PT_LOAD, and the three types that are skipped: GNU stack, RELRO and PT_PHDR
abbrev pub is_load : Phdr → Bool
is_load seg = seg.p_type == 1

abbrev pub is_skipped : Phdr → Bool
is_skipped seg = (seg.p_type == 0x6474E551) || (seg.p_type == 0x6474E552) || (seg.p_type == 6)

-- `Elf64_Ehdr`: of `e_ident` the five bytes that are checked; `segments` is the table of
-- `e_phnum` program headers at `e_phoff`.
pub record Ehdr : Type 0 where
  pub ei_class : ℕ
  pub ei_data : ℕ
  pub ei_version : ℕ
  pub ei_osabi : ℕ
  pub ei_abiversion : ℕ
  pub e_type : ℕ
  pub e_machine : ℕ
  pub e_version : ℕ
  pub e_entry : ℕ
  pub segments : List Phdr

-- A block of memory: what its capability bounds.
pub record Block : Type 0 where
  pub size : ℕ
  pub bytes : ℕ → ℕ

-- What the loader returns: the memory, `minaddr`, `maxaddr` and `entry`.
pub record Loaded : Type 0 where
  pub prgmp : Block
  pub minaddr : ℕ
  pub maxaddr : ℕ
  pub entry : ℕ

unfoldable pub elf_check_supported : Ehdr → Bool
elf_check_supported hdr =
    (hdr.ei_class == 2)
    && (hdr.ei_data == 2)
    && (hdr.ei_version == 1)
    && (hdr.ei_osabi == 9)
    && (hdr.ei_abiversion == 0)
    && (hdr.e_type == 2)
    && (hdr.e_machine == 8)
    && (hdr.e_version == 1)

-- The first loop, on `allocsize` and `lowaddr`: `none` for an unknown segment.
unfoldable pub scan : List Phdr → ℕ → ℕ → Option (ℕ × ℕ)
scan [] allocsize lowaddr = some (allocsize, lowaddr)
scan (seg ∷ segs) allocsize lowaddr =
    let bound = (seg.p_vaddr + seg.p_memsz) % two_64 in
    let loaded = scan segs (max allocsize bound) (min lowaddr seg.p_vaddr) in
    let skipped = scan segs allocsize lowaddr in
    if is_load seg then loaded else (if is_skipped seg then skipped else none)

-- Whether address `x` of the program is one of the bytes that a segment has in the file
abbrev pub covers : Phdr → ℕ → Bool
covers seg x = leb seg.p_vaddr x && ltb x (seg.p_vaddr + seg.p_filesz)

-- `env->memcpy(prgmp + p_vaddr, addr + p_offset, p_filesz)`; it traps past the block's bounds.
unfoldable pub copy_segment : (ℕ → ℕ) → Phdr → Block → Res Block
copy_segment file seg b =
    if ltb b.size (seg.p_vaddr + seg.p_filesz)
    then halt trap
    else ok (record b {
      bytes = λ x. if covers seg x then file (seg.p_offset + (x - seg.p_vaddr)) else b.bytes x;
    })

-- The second loop.
unfoldable pub copy_segments : (ℕ → ℕ) → List Phdr → Block → Res Block
unfolding copy_segment
copy_segments file [] b = ok b
copy_segments file (seg ∷ segs) b = do
  b' ← if is_load seg then copy_segment file seg b else ok b
  copy_segments file segs b'

-- From the allocation on.
unfoldable pub load_into : (ℕ → ℕ) → Ehdr → ℕ → ℕ → Option Block → Res (Option Loaded)
unfolding copy_segments
load_into file hdr allocsize lowaddr none = ok none
load_into file hdr allocsize lowaddr (some b) = do
  prgmp ← copy_segments file hdr.segments b
  ok (some (record { prgmp = prgmp; minaddr = lowaddr; maxaddr = allocsize; entry = hdr.e_entry }))

unfoldable pub after_scan :
    (ℕ → Option Block) → (ℕ → ℕ) → Ehdr → Option (ℕ × ℕ) → Res (Option Loaded)
unfolding load_into
after_scan alloc file hdr none = ok none
after_scan alloc file hdr (some (allocsize, lowaddr)) =
    load_into file hdr allocsize lowaddr (alloc allocsize)

-- `file` is the bytes at `p`, and `hdr` what the header there shows.
unfoldable pub elf_loader_mem : (ℕ → Option Block) → (ℕ → ℕ) → Ehdr → Res (Option Loaded)
unfolding elf_check_supported scan after_scan
elf_loader_mem alloc file hdr =
    if elf_check_supported hdr
    then after_scan alloc file hdr (scan hdr.segments 0 (two_64 - 1))
    else ok none
