-- ===== src/Tests/Loader.antt =====
-- The ELF loader, on a program of two segments.
use cherios.Base.{◌⊎◌, Option, ◌⊎◌, ℕ, ◌∷◌, [], some}
use cherios.Boot.Elf.{Ehdr, Block}

-- A program of two segments to load, and a stack that is not.
abbrev program : Ehdr
program = record {
  ei_class = 2;
  ei_data = 2;
  ei_version = 1;
  ei_osabi = 9;
  ei_abiversion = 0;
  e_type = 2;
  e_machine = 8;
  e_version = 1;
  e_entry = 0x120;
  segments =
      record { p_type = 1; p_offset = 64; p_vaddr = 0x100; p_filesz = 0x80; p_memsz = 0x80 }
      ∷ record { p_type = 1; p_offset = 192; p_vaddr = 0x200; p_filesz = 0x10; p_memsz = 0x40 }
      ∷ record { p_type = 0x6474E551; p_offset = 0; p_vaddr = 0; p_filesz = 0; p_memsz = 0 }
      ∷ [];
}

abbrev alloc_zeros : ℕ → Option Block
alloc_zeros n = some (record { size = n; bytes = λ x. 0 })
