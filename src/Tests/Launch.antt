-- ===== src/Tests/Launch.antt =====
-- init starts a module, and the name server with a module behind it.
use cherios.Base.{
  ℕ, ◌+◌, ◌%◌, ◌≡◌, refl, false, List, [], ◌∷◌, ◌++◌, none, some, ok, length, two_64, arith,
}
use cherios.Boot.Alloc.{Pool, init_alloc, init_alloc_core, align_upwards, up_size}
use cherios.Boot.Elf.{
  Ehdr, elf_check_supported, scan, elf_loader_mem, after_scan, load_into, copy_segment,
  copy_segments,
}
use cherios.Boot.Modules.{m_namespace, m_user}
use cherios.Boot.Launch.{Started, Init, Host, malta, load_module}
use cherios.Boot.Launch.Handed.{load_each, AllKnow, load_module-namespace}
use cherios.Boot.Alloc.Overlap.{BoundsLaws}
use cherios.Tests.Toy.{Toy, toy, toy_null, toy_default, sealed_cap}

-- A program of 5000 bytes
abbrev program_header : Ehdr
program_header = record {
  ei_class = 2;
  ei_data = 2;
  ei_version = 1;
  ei_osabi = 9;
  ei_abiversion = 0;
  e_type = 2;
  e_machine = 8;
  e_version = 1;
  e_entry = 64;
  segments = record { p_type = 1; p_offset = 0; p_vaddr = 0; p_filesz = 100; p_memsz = 5000 } ∷ [];
}

abbrev zeros : ℕ → ℕ
zeros i = 0

-- The kernel answers with a control reference.
abbrev init_host : Host Toy
init_host = record {
  load = λ name. some (program_header, zeros);
  mmap = λ n. none;
  bytes = λ p i. 0;
  start_heap = 0x100000;
  stop_heap = 0x200000;
  console = malta;
  register = λ frame name. ok (sealed_cap 42001 (length name));
  get_ref = λ ctrl. record ctrl { sealed_by = some 1 };
  get_id = λ ctrl. record ctrl { sealed_by = some 2 };
}

abbrev first_pool : Pool Toy
first_pool = record {
  pool_start = record toy_default { base = 0x300000; len = 163840 };
  pool_next = 0x300000;
  pool_end = 0x300000 + 163840;
  system_alloc = false;
}

abbrev init : Init Toy
init = record { ns_ref = toy_null; ns_id = toy_null; pool = first_pool; started = [] }

toy-set_bounds :
    (p q : Toy) (n : ℕ)
    → toy.set_bounds p n ≡ some q
    → (q.base ≡ (p.base + p.offset) % two_64) × (q.len ≡ n)
toy-set_bounds p q n e = ground arith

pub toy-BoundsLaws : BoundsLaws toy
toy-BoundsLaws = record {
  base = λ p q n e. (toy-set_bounds p q n e).0;
  len = λ p q n e. (toy-set_bounds p q n e).1;
}

-- The name server, and then a user's module
abbrev name_server : Toy
name_server = sealed_cap 42001 2

starts_server :
    (s : Init Toy) × (load_module toy init_host init m_namespace (1 ∷ 2 ∷ []) 0 toy_null
      ≡ ok (some name_server, s))
unfolding load_module elf_check_supported scan elf_loader_mem after_scan load_into copy_segments
    copy_segment init_alloc init_alloc_core align_upwards up_size
starts_server = (_, refl)

starts_user :
    (s : Init Toy) × (load_each toy init_host starts_server.0 ((m_user, 1 ∷ [], 7) ∷ []) ≡ ok s)
unfolding load_each load_module elf_check_supported scan elf_loader_mem after_scan load_into
    copy_segments copy_segment init_alloc init_alloc_core align_upwards up_size starts_server
starts_user = (_, refl)

load_module-namespace_example :
    (new : List (Started Toy)) × (one : Started Toy) × (starts_user.0.started ≡ new ++ one ∷ [])
    × (length new ≡ 1)
    × AllKnow toy init_host (init_host.get_ref name_server) (init_host.get_id name_server) new
    × AllKnow toy init_host toy_null toy_null (one ∷ [])
    × (one.ctrl ≡ name_server)
load_module-namespace_example =
    load_module-namespace toy init_host init starts_server.0 starts_user.0 (1 ∷ 2 ∷ []) 0
      name_server ((m_user, 1 ∷ [], 7) ∷ []) starts_server.1 refl starts_user.1
