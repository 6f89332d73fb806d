-- ===== src/Memmgt/Mmap/Cycle.antt =====
-- A mapping of memmgt/src/mmap.c that is made and given back.
use cherios.Base.{
  ℕ, ◌+◌, ◌-◌, ◌*◌, ◌%◌, ◌≤◌, ◌<◌, ◌≡◌, ◌≢◌, refl, sym, ap, ◌∙◌, subst, true, false, Option, some,
  or_trap, >>=-eq-ok, Bool-cases, inl, inr, List, [], ◌∷◌, length, Res, ok, leb, ltb, ◌==◌, bit_and,
  two_64, arith,
}
use cherios.Cheri.{Cheri}
use cherios.Memmgt.Mmap.{
  Page, Pages, pagesz, perm_soft_1, pages_for, find_space, take_chunk, address, give_chunk,
  after_search, mmap_pages, release, munmap,
}
use cherios.Memmgt.Mmap.Chunks.{Chunk, fits, cut, locate, locate-le, first_fit, is_free, give_back}
use cherios.Memmgt.Mmap.Fit.{Repr, Repr-le, find_space-eq-locate, take_chunk-Repr, release-Repr}
use cherios.Memmgt.Mmap.Service.{
  pages_for-bounds, wanted_for, Shows, IsMapped, IsWritable, munmap-whole,
}

abbrev AllSized : List Chunk → Type 0
AllSized [] = Unit {0}
AllSized (c ∷ cs) = (0 < c.size) × AllSized cs

Repr-AllSized : (book : ℕ → Page) (n p : ℕ) (cs : List Chunk) → Repr book n p cs → AllSized cs
Repr-AllSized book n p [] r = tt
Repr-AllSized book n p (c ∷ cs) r = (r.2, Repr-AllSized book n (p + c.size) cs r.3)

-- A chunk that is cut and given back
cut-back :
    (wanted page : ℕ) (c : Chunk) (cs : List Chunk) (x : ℕ)
    → fits wanted c ≡ true
    → is_free page (give_back page page (cut wanted c cs)) x ≡ is_free page (c ∷ cs) x
unfolding give_back is_free
cut-back wanted page c cs x f = elim (Bool-cases (ltb wanted c.size)) [
  | inl more ↦
      let whole : page + wanted + (c.size - wanted) ≡ page + c.size = ground arith in
      rw (more, whole) (ground arith)
  | inr exact ↦ let whole : wanted ≡ c.size = ground arith in rw (exact, whole) (ground arith)
]

back-is_free :
    (wanted page : ℕ) (cs : List Chunk) (q x : ℕ)
    → AllSized cs
    → locate wanted page cs ≡ some q
    → is_free page (give_back q page (first_fit wanted cs)) x ≡ is_free page cs x
unfolding locate first_fit give_back is_free
back-is_free wanted page [] q x sized e = cc
back-is_free wanted page (c ∷ cs) q x (big, sized) e = elim (Bool-cases (fits wanted c)) [
  | inl found ↦
      let start : page ≡ q = ground arith in rw (found, ← start) (cut-back wanted page c cs x found)
  | inr passed ↦
      let later : locate wanted (page + c.size) cs ≡ some q = ground arith in
      let behind : (q == page) ≡ false =
        ground (arith, locate-le wanted (page + c.size) cs q later) in
      rw (passed, behind) (ground (arith, back-is_free wanted (page + c.size) cs q x sized later))
]

locate-lt :
    (book : ℕ → Page) (n wanted p : ℕ) (cs : List Chunk) (q : ℕ)
    → Repr book n p cs
    → locate wanted p cs ≡ some q
    → q < n
unfolding locate
locate-lt book n wanted p [] q r e = cc
locate-lt book n wanted p (c ∷ cs) q r e =
    ground (
      arith,
      r.2,
      Repr-le book n (p + c.size) cs r.3,
      locate-lt book n wanted (p + c.size) cs q r.3,
    )

taken-len :
    (book : ℕ → Page) (q wanted : ℕ) → 0 < wanted → (take_chunk book q wanted q).len ≡ wanted
unfolding take_chunk
taken-len book q wanted pos = ground arith

module _ (c : Cheri) where
  open c use {Cap}

  -- The state after the mapping
  abbrev taken : Pages Cap → ℕ → ℕ → Pages Cap
  taken s q length = record s { book = take_chunk s.book q (wanted_for length) }

  mmap_pages-give_chunk :
      (s : Pages Cap) (cs : List Chunk) (q length perms : ℕ)
      → Shows c s cs
      → length + pagesz ≤ two_64
      → locate (wanted_for length) 0 cs ≡ some q
      → mmap_pages c s length perms ≡ give_chunk c s q (wanted_for length) length perms
  unfolding mmap_pages after_search
  mmap_pages-give_chunk s cs q length perms v h e =
      let bounds = pages_for-bounds length h in
      let wanted : (pages_for length + 1) % two_64 ≡ wanted_for length = omega (arith, bounds) in
      let covers : leb length (pages_for length * pagesz % two_64) ≡ true =
        ground (arith, bounds) in
      let search : find_space (s.pages_nb + 1) s.book s.pages_nb (wanted_for length) 0
          ≡ ok (some q) =
        find_space-eq-locate (s.pages_nb + 1) s.book s.pages_nb (wanted_for length) 0 cs v.repr
          (omega (arith, v.small)) (omega (arith, Repr-le s.book s.pages_nb 0 cs v.repr))
        ∙ ap ok e in
      rw (covers, wanted, search) refl

  abbrev answered : Option Cap → Pages Cap → Res (Option Cap × Pages Cap)
  answered o s = ok (o, s)

  second_injective : {o o' : Option Cap} {s s' : Pages Cap} → answered o s ≡ answered o' s' → s ≡ s'
  second_injective e = cc

  give_chunk-eq-ok :
      (s : Pages Cap) (q length perms : ℕ) (p : Cap) (s' : Pages Cap)
      → give_chunk c s q (wanted_for length) length perms ≡ ok (some p, s')
      → taken s q length ≡ s'
  unfolding give_chunk
  give_chunk-eq-ok s q length perms p s' e =
      let (_, _, last) =
        >>=-eq-ok (or_trap (c.set_bounds (c.inc_offset s.pool (q * pagesz)) length)) _ e in
      second_injective last

  taken-IsMapped :
      (s : Pages Cap) (cs : List Chunk) (q length : ℕ) (p : Cap)
      → Shows c s cs
      → length + pagesz + pagesz ≤ two_64
      → locate (wanted_for length) 0 cs ≡ some q
      → address c p ≡ (address c s.pool + q * pagesz) % two_64
      → bit_and (c.get_perm p) perm_soft_1 ≢ 0
      → IsMapped c (taken s q length) p q length
  taken-IsMapped s cs q length p v h e at may = record {
    at = at;
    inside =
        omega (arith, v.small, locate-lt s.book s.pages_nb (wanted_for length) 0 cs q v.repr e);
    len = taken-len s.book q (wanted_for length) (omega arith);
    may_free = may;
    short = h;
  }

  -- A mapping of whole pages that `__mmap` has made, `__munmap` gives back: the book then shows
  -- chunks again, and exactly the pages are free that were free before; provided that the
  -- capability points to the pages found, has their bounds and keeps the permissions to be unmapped
  -- and written.
  pub mmap-munmap :
      (s : Pages Cap) (cs : List Chunk) (q length perms : ℕ) (p : Cap) (s' : Pages Cap)
      → Shows c s cs
      → length + pagesz + pagesz ≤ two_64
      → length % pagesz ≡ 0
      → locate (wanted_for length) 0 cs ≡ some q
      → mmap_pages c s length perms ≡ ok (some p, s')
      → address c p ≡ (address c s.pool + q * pagesz) % two_64
      → bit_and (c.get_perm p) perm_soft_1 ≢ 0
      → IsWritable c p length
      → (s'' : Pages Cap) × (cs'' : List Chunk) × (munmap c s' p length ≡ ok (0, s''))
        × Shows c s'' cs''
        × ((x : ℕ) → is_free 0 cs'' x ≡ is_free 0 cs x)
  mmap-munmap s cs q length perms p s' v h whole e made at may writable =
      let same : taken s q length ≡ s' =
        give_chunk-eq-ok s q length perms p s'
          (sym (mmap_pages-give_chunk s cs q length perms v (omega (arith, h)) e) ∙ made) in
      let wanted = wanted_for length in
      let back =
        munmap-whole c (taken s q length) p q length (taken-IsMapped s cs q length p v h e at may)
          writable whole in
      (
        release c (taken s q length) q,
        give_back q 0 (first_fit wanted cs),
        subst (λ t. munmap c t p length ≡ ok (0, release c (taken s q length) q)) same back,
        record {
          repr =
              release-Repr (take_chunk s.book q wanted) s.pages_nb 0 (first_fit wanted cs) q
                (take_chunk-Repr s.book s.pages_nb wanted 0 cs q v.repr (omega arith) e);
          small = v.small;
        },
        λ x. back-is_free wanted 0 cs q x (Repr-AllSized s.book s.pages_nb 0 cs v.repr) e,
      )
