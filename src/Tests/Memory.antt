-- ===== src/Tests/Memory.antt =====
-- The memory manager, on a small book of pages.
use cherios.Base.{
  false, ℕ, ◌+◌, ◌*◌, ◌≡◌, ◌∷◌, [], refl, true, false, some, List, ok, halt, assertion, arith, ◌==◌,
  if◌then◌else◌,
}
use cherios.Memmgt.Mmap.{
  Page, Pages, page_unused, page_used, find_space, take_chunk, mmap_pages, after_search, give_chunk,
  munmap, pages_for,
}
use cherios.Memmgt.Mmap.Chunks.{Chunk, locate}
use cherios.Memmgt.Mmap.Fit.{Repr, find_space-eq-locate}
use cherios.Memmgt.Mmap.Service.{IsMapped, IsWritable, IsHeap, wanted_for, munmap-part}
use cherios.Tests.Toy.{Toy, toy, toy_default}

-- Two used pages, then six free ones
abbrev pub chunks : List Chunk
chunks = record { size = 2; free = false } ∷ record { size = 6; free = true } ∷ []

abbrev pub book : ℕ → Page
book p = record {
  status = if p == 0 then page_used else page_unused;
  owner = 0;
  len = if p == 0 then 2 else 6;
  prev = 0;
}

abbrev pub pages : Pages Toy
pages = record {
  pool = record toy_default { base = 0x100000; len = 8 * 4096 };
  pages_nb = 8;
  book = book;
  errno = 0;
}

pub book-Repr : Repr book 8 0 chunks
book-Repr = (refl, refl, omega arith, (refl, refl, omega arith, refl))

-- Two pages and the spare one are found at page 2.
located : locate 3 0 chunks ≡ some 2
unfolding locate
located = refl

find_space-eq-locate_example : find_space 9 book 8 3 0 ≡ ok (locate 3 0 chunks)
find_space-eq-locate_example =
    find_space-eq-locate 9 book 8 3 0 chunks book-Repr (omega arith) (omega arith)

found_two : find_space 9 book 8 3 0 ≡ ok (some 2)
unfolding find_space
found_two = refl

-- A mapping of `length` bytes at page 0
abbrev mapped : Toy
mapped = record toy_default { base = 0x100000; len = 4096; perm = 0x1FFFF }

mapped-IsMapped : IsMapped toy pages mapped 0 4096
unfolding pages_for
mapped-IsMapped = record {
  at = refl;
  inside = omega arith;
  len = refl;
  may_free = omega arith;
  short = omega arith;
}

-- The mapping of 4000 bytes
abbrev part : Toy
part = record mapped { len = 4000 }

part-IsMapped : IsMapped toy pages part 0 4000
unfolding pages_for
part-IsMapped = record {
  at = refl;
  inside = omega arith;
  len = refl;
  may_free = omega arith;
  short = omega arith;
}

part-IsWritable : IsWritable toy part 4000
part-IsWritable = record {
  tagged = refl;
  unsealed = refl;
  may_write = λ e. omega (arith, e);
  at_base = refl;
  len = refl;
}

munmap-part_example : munmap toy pages part 4000 ≡ halt assertion
munmap-part_example = munmap-part toy pages part 0 4000 part-IsMapped part-IsWritable (omega arith)

-- Three pages and some
abbrev heap : Toy
heap = record toy_default { base = 0x100000; len = 13000 }

abbrev heap_pool : Toy
heap_pool = record heap { len = 3 * 4096 }

abbrev heap_book : Toy
heap_book = record heap { base = 0x100000 + 3 * 4096; len = 3 * 32 }

heap-IsHeap : IsHeap toy heap heap_pool heap_book
heap-IsHeap = record {
  aligned = refl;
  at_base = refl;
  large = omega arith;
  below = omega arith;
  pool_made = refl;
  book_made = refl;
}

-- A pool whose capabilities may be unmapped, and the two pages from page 2 on
abbrev pub soft_pages : Pages Toy
soft_pages = record pages {
  pool = record toy_default { base = 0x100000; len = 8 * 4096; perm = 0x1FFFF };
}

abbrev pub two_pages : Toy
two_pages = record toy_default { base = 0x102000; len = 8192; perm = 0x1FFFF }

abbrev with_two : Pages Toy
with_two = record soft_pages { book = take_chunk book 2 3 }

maps_two : mmap_pages toy soft_pages 8192 0x1FFFF ≡ ok (some two_pages, with_two)
unfolding mmap_pages pages_for find_space after_search give_chunk
maps_two = refl

pub locates_two : locate (wanted_for 8192) 0 chunks ≡ some 2
unfolding locate pages_for
locates_two = refl
