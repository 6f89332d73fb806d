-- ===== src/Memmgt/Mmap/Fit.antt =====
-- The book of `mmap.c` represents a list of chunks, and its search and its update do to the book
-- what the abstract allocation does to the list.
use cherios.Base.{
  ◌⊎◌, false, ℕ, zero, suc, ◌+◌, ◌-◌, ◌%◌, ◌≤◌, ◌<◌, ◌≡◌, true, some, List, [], ◌∷◌, ok, ltb, ◌==◌,
  length, update, arith, Bool-cases, inl, inr, two_64,
}
use cherios.Memmgt.Mmap.{Page, page_unused, is_unused, find_space, take_chunk}
use cherios.Memmgt.Mmap.Chunks.{
  is_free, locate-is_free, first_fit-is_free, Chunk, fits, cut, locate, locate-le, first_fit,
  give_back,
}

-- From page `p` on the book shows the chunks, which end at page `n`.
abbrev pub Repr : (ℕ → Page) → ℕ → ℕ → List Chunk → Type 0
Repr book n p [] = p ≡ n
Repr book n p (c ∷ cs) =
    ((book p).len ≡ c.size)
    × (is_unused (book p).status ≡ c.free)
    × (0 < c.size)
    × Repr book n (p + c.size) cs

pub Repr-le : (book : ℕ → Page) (n p : ℕ) (cs : List Chunk) → Repr book n p cs → p + length cs ≤ n
Repr-le book n p [] r = omega arith
Repr-le book n p (c ∷ cs) r = omega (arith, r, Repr-le book n (p + c.size) cs r.3)

-- Only the entries from `p` on matter.
pub Repr-frame :
    (book book' : ℕ → Page) (n p : ℕ) (cs : List Chunk)
    → ((j : ℕ) → p ≤ j → book' j ≡ book j)
    → Repr book n p cs
    → Repr book' n p cs
Repr-frame book book' n p [] same r = r
Repr-frame book book' n p (c ∷ cs) same r =
    let here = same p (omega arith) in
    (
      rw here r.0,
      rw here r.1,
      r.2,
      Repr-frame book book' n (p + c.size) cs (λ j h. same j (omega arith)) r.3,
    )

-- In a book that represents a list of chunks, with pages below 2^64 and fuel for more rounds than
-- there are chunks, the search ends, with the page that the list gives.
pub find_space-eq-locate :
    (fuel : ℕ) (book : ℕ → Page) (n wanted p : ℕ) (cs : List Chunk)
    → Repr book n p cs
    → n < two_64
    → length cs < fuel
    → find_space fuel book n wanted p ≡ ok (locate wanted p cs)
unfolding find_space locate
find_space-eq-locate zero book n wanted p cs r lt f = absurd (omega arith)
find_space-eq-locate (suc fuel) book n wanted p [] r lt f = ground (arith, r)
find_space-eq-locate (suc fuel) book n wanted p (c ∷ cs) r lt f =
    let bound = Repr-le book n (p + c.size) cs r.3 in
    let step : (p + c.size) % two_64 ≡ p + c.size = omega (arith, bound) in
    let rest = find_space-eq-locate fuel book n wanted (p + c.size) cs r.3 lt (omega arith) in
    rw (r.0, r.1, step, rest) (ground arith)

take_chunk-before : (book : ℕ → Page) (q wanted j : ℕ) → j < q → take_chunk book q wanted j ≡ book j
unfolding take_chunk
take_chunk-before book q wanted j h = ground arith

-- Entries past the chunk taken and its remainder stay as they are.
take_chunk-after :
    (book : ℕ → Page) (q wanted j : ℕ)
    → 0 < wanted
    → wanted ≤ (book q).len
    → q + (book q).len ≤ j
    → take_chunk book q wanted j ≡ book j
unfolding take_chunk
take_chunk-after book q wanted j pos le h = ground arith

take_chunk-cut :
    (book : ℕ → Page) (n wanted p : ℕ) (c : Chunk) (cs : List Chunk)
    → Repr book n p (c ∷ cs)
    → 0 < wanted
    → fits wanted c ≡ true
    → Repr (take_chunk book p wanted) n p (cut wanted c cs)
unfolding take_chunk
take_chunk-cut book n wanted p c cs r pos f =
    let tail : Repr (take_chunk book p wanted) n (p + c.size) cs =
      Repr-frame book (take_chunk book p wanted) n (p + c.size) cs
        (λ j h. take_chunk-after book p wanted j pos (ground (arith, r)) (omega (arith, r))) r.3 in
    elim (Bool-cases (ltb wanted c.size)) [
      | inl more ↦
          let whole : p + wanted + (c.size - wanted) ≡ p + c.size = ground arith in
          rw more (
            ground (arith, r),
            ground (arith, r),
            pos,
            (ground (arith, r), ground (arith, r), ground arith, rw whole tail),
          )
      | inr exact ↦
          let whole : wanted ≡ c.size = ground arith in
          rw exact (ground (arith, r), ground (arith, r), pos, rw whole tail)
    ]

-- If the list of chunks has one for the wanted pages at page `q`, taking it there in the book gives
-- a book that represents the list after first-fit allocation.
pub take_chunk-Repr :
    (book : ℕ → Page) (n wanted p : ℕ) (cs : List Chunk) (q : ℕ)
    → Repr book n p cs
    → 0 < wanted
    → locate wanted p cs ≡ some q
    → Repr (take_chunk book q wanted) n p (first_fit wanted cs)
unfolding locate first_fit
take_chunk-Repr book n wanted p [] q r pos e = cc
take_chunk-Repr book n wanted p (c ∷ cs) q r pos e = elim (Bool-cases (fits wanted c)) [
  | inl found ↦
      let start : p ≡ q = ground arith in
      rw (found, ← start) (take_chunk-cut book n wanted p c cs r pos found)
  | inr passed ↦
      let later : locate wanted (p + c.size) cs ≡ some q = ground arith in
      let after = locate-le wanted (p + c.size) cs q later in
      let same = take_chunk-before book q wanted p (omega (arith, after, r)) in
      rw (passed, same)
        (r.0, r.1, r.2, take_chunk-Repr book n wanted (p + c.size) cs q r.3 pos later)
]

-- Marking the entry of page `q` unused gives back the chunk that begins there, if one does.
pub release-Repr :
    (book : ℕ → Page) (n p : ℕ) (cs : List Chunk) (q : ℕ)
    → Repr book n p cs
    → Repr (update book q (record (book q) { status = page_unused })) n p (give_back q p cs)
unfolding give_back
release-Repr book n p [] q r = r
release-Repr book n p (c ∷ cs) q r =
    let book' = update book q (record (book q) { status = page_unused }) in
    elim (Bool-cases (q == p)) [
      | inl here ↦ rw here (
        ground (arith, r),
        ground (arith, r),
        r.2,
        Repr-frame book book' n (p + c.size) cs (λ j h. ground (arith, r)) r.3,
      )
      | inr there ↦
          rw there
            (ground (arith, r), ground (arith, r), r.2, release-Repr book n (p + c.size) cs q r.3)
    ]

-- The search and the update together: if the search finds page `q`, the `wanted` pages from there
-- on were free and are free no longer, every other page is as it was, and the book still
-- represents a list of chunks.
pub take_found-is_free :
    (fuel : ℕ) (book : ℕ → Page) (n wanted : ℕ) (cs : List Chunk) (q : ℕ)
    → Repr book n 0 cs
    → n < two_64
    → 0 < wanted
    → length cs < fuel
    → find_space fuel book n wanted 0 ≡ ok (some q)
    → (cs' : List Chunk) × Repr (take_chunk book q wanted) n 0 cs'
      × ((x : ℕ) → q ≤ x → x < q + wanted → (is_free 0 cs x ≡ true) × (is_free 0 cs' x ≡ false))
      × ((x : ℕ) → (x < q) ⊎ (q + wanted ≤ x) → is_free 0 cs' x ≡ is_free 0 cs x)
take_found-is_free fuel book n wanted cs q r lt pos enough e =
    let search = find_space-eq-locate fuel book n wanted 0 cs r lt enough in
    let found : locate wanted 0 cs ≡ some q = cc in
    (
      first_fit wanted cs,
      take_chunk-Repr book n wanted 0 cs q r pos found,
      λ x lo hi. (
        locate-is_free wanted 0 cs q x found lo hi,
        ground (arith, first_fit-is_free wanted 0 cs q x found),
      ),
      λ x out. ground (arith, first_fit-is_free wanted 0 cs q x found),
    )
