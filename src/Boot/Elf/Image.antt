-- ===== src/Boot/Elf/Image.antt =====
-- What the loader puts into memory.
use cherios.Base.{
  ℕ, ◌+◌, ◌-◌, ◌≤◌, ◌<◌, ◌≡◌, true, false, ◌&&◌, List, [], ◌∷◌, ◌++◌, if◌then◌else◌, two_64,
}
use cherios.Boot.Elf.{Phdr, Ehdr, Block, Loaded, is_load, is_skipped, covers}

-- A segment that the loader takes: one that is skipped, or one to load whose bytes from the file
-- fit its memory, below the end of the address space.
pub data IsFit (seg : Phdr) : Type 0 where
  fit_load :
      is_load seg ≡ true
      → seg.p_filesz ≤ seg.p_memsz
      → seg.p_vaddr + seg.p_memsz < two_64
      → IsFit seg
  fit_skip : is_load seg ≡ false → is_skipped seg ≡ true → IsFit seg

abbrev pub AllFit : List Phdr → Type 0
AllFit [] = Unit {0}
AllFit (seg ∷ segs) = IsFit seg × AllFit segs

-- The bounds of a program: the memory of each segment to load lies between `low` and `high`.
abbrev pub Bounded : List Phdr → ℕ → ℕ → Type 0
Bounded [] high low = Unit {0}
Bounded (seg ∷ segs) high low =
    (is_load seg ≡ true → (low ≤ seg.p_vaddr) × (seg.p_vaddr + seg.p_memsz ≤ high))
    × Bounded segs high low

-- No segment to load has address `x` among its bytes.
abbrev pub Untouched : List Phdr → ℕ → Type 0
Untouched [] x = Unit {0}
Untouched (seg ∷ segs) x = (is_load seg && covers seg x ≡ false) × Untouched segs x

-- The memory after the segments have been copied into it.
abbrev copied : (ℕ → ℕ) → List Phdr → (ℕ → ℕ) → (ℕ → ℕ)
copied file [] bytes = bytes
copied file (seg ∷ segs) bytes =
    copied file segs (λ x.
      if is_load seg && covers seg x then file (seg.p_offset + (x - seg.p_vaddr)) else bytes x)

-- A program in memory: `file` is the file's bytes, `before` the block's before the load.
pub record IsImage (file before : ℕ → ℕ) (hdr : Ehdr) (image : Loaded) : Type 0 where
  pub bounded : Bounded hdr.segments image.maxaddr image.minaddr
  pub entry_kept : image.entry ≡ hdr.e_entry
  pub last :
      (pre post : List Phdr) (seg : Phdr) (x : ℕ)
      → hdr.segments ≡ pre ++ seg ∷ post
      → is_load seg && covers seg x ≡ true
      → Untouched post x
      → image.prgmp.bytes x ≡ file (seg.p_offset + (x - seg.p_vaddr))
  pub rest : (x : ℕ) → Untouched hdr.segments x → image.prgmp.bytes x ≡ before x

-- What the loader makes of the block `b`.
abbrev loaded : (ℕ → ℕ) → Ehdr → Block → ℕ → ℕ → Loaded
loaded file hdr b high low = record {
  prgmp = record b { bytes = copied file hdr.segments b.bytes };
  minaddr = low;
  maxaddr = high;
  entry = hdr.e_entry;
}
