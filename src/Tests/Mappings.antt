-- ===== src/Tests/Mappings.antt =====
-- A client of the memory manager on the demonstration kernel.
use cherios.Base.{◌+◌, ◌-◌, ◌^◌, ◌≡◌, refl, halt, trap, arith}
use cherios.Kernel.State.{Kernel, set_current}
use cherios.Libuser.Mmap
use cherios.Libuser.Server.{exchange, null_method}
use cherios.Memmgt.Mmap.{Pages, pages_for, take_chunk}
use cherios.Memmgt.Mmap.Service.{IsMapped, IsWritable}
use cherios.Memmgt.Client.{methods, munmap-long}
use cherios.Tests.Toy.{Toy, toy, toy_null, toy_default, toy_Laws, table_at, demo}
use cherios.Tests.Memory.{pages, soft_pages, two_pages, book}
use cherios.Tests.Clients.{call_of, frame_of, ns_three, id_three, bare_token, new_token}

-- Two pages to read and to write, shared and anonymous
abbrev writable_pages : Toy
writable_pages = record two_pages { perm = 0x803D }

abbrev with_writable : Pages Toy
with_writable = record soft_pages { book = take_chunk book 2 3 }

-- A mapping of 2^31 bytes
abbrev large_pages : Pages Toy
large_pages = record pages { book = λ i. record (pages.book i) { len = 2 ^ 19 + 1 } }

abbrev large : Toy
large = record toy_default { base = 0x100000; len = 2 ^ 31; perm = 0x1FFFF }

large-IsMapped : IsMapped toy large_pages large 0 (2 ^ 31)
unfolding pages_for
large-IsMapped = record {
  at = refl;
  inside = omega arith;
  len = refl;
  may_free = omega arith;
  short = omega arith;
}

large-IsWritable : IsWritable toy large (2 ^ 31)
large-IsWritable = record {
  tagged = refl;
  unsealed = refl;
  may_write = λ e. omega (arith, e);
  at_base = refl;
  len = refl;
}

munmap-long_example :
    exchange toy table_at
      (methods toy toy_Laws table_at toy_default null_method)
      (set_current demo (frame_of 1 (2 ^ 64 - 2 ^ 31) large toy_null))
      (record { own = large_pages; sync_token = toy_null })
    ≡ halt trap
munmap-long_example =
    munmap-long toy toy_Laws table_at toy_default null_method demo ns_three id_three large
      (frame_of 1 (2 ^ 64 - 2 ^ 31) large toy_null) 3 toy_default bare_token new_token toy_null
      large_pages 0 (2 ^ 31) large-IsMapped large-IsWritable refl (omega arith) (omega arith)
      (call_of 1 (2 ^ 64 - 2 ^ 31) large toy_null)
