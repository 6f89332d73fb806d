-- ===== src/Memmgt/Mmap/Chunks.antt =====
-- The abstract book: the pages from 0 on as a list of chunks, each free or used; allocation takes
-- the first free chunk that is large enough and splits it.
use cherios.Base.{
  ℕ, ◌+◌, ◌-◌, ◌≤◌, ◌<◌, ◌≡◌, Bool, true, false, ◌&&◌, Option, none, some, List, [], ◌∷◌, leb, ltb,
  if◌then◌else◌, arith, Bool-cases, inl, inr, ◌==◌,
}

pub record Chunk : Type 0 where
  pub size : ℕ
  pub free : Bool

abbrev pub fits : ℕ → Chunk → Bool
fits wanted c = c.free && leb wanted c.size

-- The page at which the first chunk that fits begins.
unfoldable pub locate : ℕ → ℕ → List Chunk → Option ℕ
locate wanted page [] = none
locate wanted page (c ∷ cs) =
    let rest = locate wanted (page + c.size) cs in if fits wanted c then some page else rest

-- A chunk of `wanted` pages cut from the front of one that fits.
abbrev pub cut : ℕ → Chunk → List Chunk → List Chunk
cut wanted c cs =
    let used : Chunk = record { size = wanted; free = false } in
    if ltb wanted c.size
    then used ∷ record { size = c.size - wanted; free = true } ∷ cs
    else used ∷ cs

unfoldable pub first_fit : ℕ → List Chunk → List Chunk
first_fit wanted [] = []
first_fit wanted (c ∷ cs) =
    let rest = first_fit wanted cs in if fits wanted c then cut wanted c cs else c ∷ rest

-- Whether page `x` lies in a free chunk.
unfoldable pub is_free : ℕ → List Chunk → ℕ → Bool
is_free page [] x = false
is_free page (c ∷ cs) x =
    let rest = is_free (page + c.size) cs x in if ltb x (page + c.size) then c.free else rest

-- The chunk that begins at `q`, given back.
unfoldable pub give_back : ℕ → ℕ → List Chunk → List Chunk
give_back q page [] = []
give_back q page (c ∷ cs) =
    let rest = give_back q (page + c.size) cs in
    if q == page then record c { free = true } ∷ cs else c ∷ rest

pub locate-le :
    (wanted page : ℕ) (cs : List Chunk) (q : ℕ) → locate wanted page cs ≡ some q → page ≤ q
unfolding locate
locate-le wanted page [] q e = cc
locate-le wanted page (c ∷ cs) q e = ground (arith, locate-le wanted (page + c.size) cs q)

-- The pages that an allocation takes were free.
pub locate-is_free :
    (wanted page : ℕ) (cs : List Chunk) (q x : ℕ)
    → locate wanted page cs ≡ some q
    → q ≤ x
    → x < q + wanted
    → is_free page cs x ≡ true
unfolding locate is_free
locate-is_free wanted page [] q x e lo hi = cc
locate-is_free wanted page (c ∷ cs) q x e lo hi =
    ground
      (arith, locate-is_free wanted (page + c.size) cs q x, locate-le wanted (page + c.size) cs q)

cut-is_free :
    (wanted page : ℕ) (c : Chunk) (cs : List Chunk) (x : ℕ)
    → fits wanted c ≡ true
    → page ≤ x
    → is_free page (cut wanted c cs) x
      ≡ (if leb page x && ltb x (page + wanted) then false else is_free page (c ∷ cs) x)
unfolding is_free
cut-is_free wanted page c cs x f h = elim (Bool-cases (ltb wanted c.size)) [
  | inl more ↦
      let whole : page + wanted + (c.size - wanted) ≡ page + c.size = ground arith in
      rw (more, whole) (ground arith)
  | inr exact ↦ let whole : wanted ≡ c.size = ground arith in rw (exact, whole) (ground arith)
]

-- After it they are not, and no other page has changed hands.
pub first_fit-is_free :
    (wanted page : ℕ) (cs : List Chunk) (q x : ℕ)
    → locate wanted page cs ≡ some q
    → page ≤ x
    → is_free page (first_fit wanted cs) x
      ≡ (if leb q x && ltb x (q + wanted) then false else is_free page cs x)
unfolding locate first_fit is_free
first_fit-is_free wanted page [] q x e h = cc
first_fit-is_free wanted page (c ∷ cs) q x e h = elim (Bool-cases (fits wanted c)) [
  | inl found ↦
      let start : page ≡ q = ground arith in
      rw (found, ← start) (cut-is_free wanted page c cs x found h)
  | inr passed ↦ ground (
    arith,
    first_fit-is_free wanted (page + c.size) cs q x,
    locate-le wanted (page + c.size) cs q,
  )
]
