-- ===== src/Boot/Launch/Handed.antt =====
-- Which modules `load_module` of boot/src/init/init_utils.c hands the name server to.
use cherios.Base.{
  ℕ, ◌≡◌, refl, sym, ap, ◌∙◌, Bool, true, false, List, [], ◌∷◌, ◌++◌, some, Res, ok, length,
  >>=-eq-ok, ok_injective, ◌>>=◌, ◌||◌, length-append, arith,
}
use mathlib.Core.List.{append_assoc}
use cherios.Cheri.{Cheri}
use cherios.Boot.Modules.{ModuleType, m_memmgt, m_namespace, m_uart, m_fs, m_core, m_user, m_fence}
use cherios.Boot.Launch.{Started, Init, Host, launched, keep_ns, load_module}
use cherios.Boot.Launch.Loads.{load_module-IsLoaded}

abbrev pub is_namespace : ModuleType → Bool
is_namespace m_namespace = true
is_namespace _ = false

module _ (c : Cheri) (h : Host c.Cap) where
  open c use {Cap}

  -- What `load_modules` asks for: the type, the file and the number of each module.
  abbrev pub Request : Type 0
  Request = ModuleType × List ℕ × ℕ

  unfoldable pub load_each : Init Cap → List Request → Res (Init Cap)
  load_each s [] = ok s
  load_each s ((type, file, arg) ∷ rest) = do
    (ctrl, s1) ← load_module c h s type file arg c.null
    load_each s1 rest

  -- Whether one of them is the name server.
  abbrev pub has_namespace : List Request → Bool
  has_namespace [] = false
  has_namespace ((type, file, arg) ∷ rest) = is_namespace type || has_namespace rest

  -- The activations know the name server by its reference and its identifier.
  abbrev pub AllKnow : Cap → Cap → List (Started Cap) → Type 0
  AllKnow ref id [] = Unit
  AllKnow ref id (one ∷ rest) =
      (one.frame.cf_c23 ≡ ref) × (one.frame.cf_c24 ≡ id) × AllKnow ref id rest

  AllKnow-append :
      (ref id : Cap) (xs : List (Started Cap)) (one : Started Cap)
      → AllKnow ref id xs
      → one.frame.cf_c23 ≡ ref
      → one.frame.cf_c24 ≡ id
      → AllKnow ref id (xs ++ one ∷ [])
  AllKnow-append ref id [] one all r i = (r, i, tt)
  AllKnow-append ref id (x ∷ xs) one all r i =
      (all.0, all.1, AllKnow-append ref id xs one all.2 r i)

  launched-keeps :
      (s : Init Cap) (type : ModuleType) (ctrl : Cap)
      → is_namespace type ≡ false
      → ((launched c h s type ctrl).1.ns_ref ≡ s.ns_ref)
        × ((launched c h s type ctrl).1.ns_id ≡ s.ns_id)
  unfolding launched keep_ns
  launched-keeps s m_namespace ctrl other = cc
  launched-keeps s m_memmgt ctrl other = ground arith
  launched-keeps s m_uart ctrl other = ground arith
  launched-keeps s m_fs ctrl other = ground arith
  launched-keeps s m_core ctrl other = ground arith
  launched-keeps s m_user ctrl other = ground arith
  launched-keeps s m_fence ctrl other = ground arith

  -- Modules that are loaded with no name server among them all get the one that init knows.
  load_each-AllKnow :
      (s s' : Init Cap) (rest : List Request)
      → has_namespace rest ≡ false
      → load_each s rest ≡ ok s'
      → (new : List (Started Cap)) × (s'.started ≡ new ++ s.started)
        × (length new ≡ length rest)
        × AllKnow s.ns_ref s.ns_id new
  unfolding load_each
  load_each-AllKnow s s' [] none_here e = ([], ap (λ x. x.started) (sym (ok_injective e)), refl, tt)
  load_each-AllKnow s s' ((type, file, arg) ∷ rest) none_here e =
      let (a, e1, r1) = >>=-eq-ok (load_module c h s type file arg c.null) _ e in
      let one = load_module-IsLoaded c h s type file arg c.null a.0 a.1 e1 in
      let other : is_namespace type ≡ false = ground arith in
      let later : has_namespace rest ≡ false = ground arith in
      let (new, order, size, all) = load_each-AllKnow a.1 s' rest later r1 in
      let (ref, id) = launched-keeps _ type one.one.ctrl other in
      let ref' : a.1.ns_ref ≡ s.ns_ref = ap (λ x. x.1.ns_ref) (sym one.ends) ∙ ref in
      let id' : a.1.ns_id ≡ s.ns_id = ap (λ x. x.1.ns_id) (sym one.ends) ∙ id in
      (
        new ++ one.one ∷ [],
        order ∙ ap (λ x. new ++ x) one.started ∙ sym (append_assoc new (one.one ∷ []) s.started),
        omega (arith, length-append {0} new (one.one ∷ []), size),
        AllKnow-append s.ns_ref s.ns_id new one.one (rw (ref', id') at all) one.ref one.id,
      )

  -- When `load_module` has loaded the name server, each module that is loaded after it starts with
  -- the name server's reference and identifier in its registers, until another name server is
  -- loaded; the name server itself starts with what init had before.
  pub load_module-namespace :
      (s s1 s2 : Init Cap) (file : List ℕ) (arg : ℕ) (ctrl : Cap) (rest : List Request)
      → load_module c h s m_namespace file arg c.null ≡ ok (some ctrl, s1)
      → has_namespace rest ≡ false
      → load_each s1 rest ≡ ok s2
      → (new : List (Started Cap)) × (one : Started Cap) × (s2.started ≡ new ++ one ∷ s.started)
        × (length new ≡ length rest)
        × AllKnow (h.get_ref ctrl) (h.get_id ctrl) new
        × AllKnow s.ns_ref s.ns_id (one ∷ [])
        × (one.ctrl ≡ ctrl)
  unfolding launched keep_ns
  load_module-namespace s s1 s2 file arg ctrl rest e none_here each =
      let one = load_module-IsLoaded c h s m_namespace file arg c.null (some ctrl) s1 e in
      let (new, order, size, all) = load_each-AllKnow s1 s2 rest none_here each in
      let same : one.one.ctrl ≡ ctrl = ground (arith, one.ends) in
      let ref : s1.ns_ref ≡ h.get_ref ctrl = ground (arith, one.ends) in
      let id : s1.ns_id ≡ h.get_id ctrl = ground (arith, one.ends) in
      (
        new,
        one.one,
        order ∙ ap (λ x. new ++ x) one.started,
        size,
        rw (ref, id) at all,
        (one.ref, one.id, tt),
        same,
      )
