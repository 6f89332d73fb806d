-- ===== src/Boot/Launch/Loads.antt =====
-- What a successful `load_module` of boot/src/init/init_utils.c has done.
use cherios.Base.{
  ℕ, ◌≡◌, refl, sym, ap, ◌∙◌, List, ◌∷◌, Option, none, some, Res, ok, >>=-eq-ok, ok_injective,
  ◌>>=◌, arith,
}
use cherios.Cheri.{Cheri}
use cherios.Boot.Alloc.{Pool, init_alloc}
use cherios.Boot.Modules.{ModuleType, m_memmgt, m_namespace, m_uart, m_fs, m_core, m_user, m_fence}
use cherios.Boot.Launch.{
  StartFrame, Started, Init, Host, stack_size, elf_loader, or_assert, code_cap, get_act_cap,
  launched, init_act_create, keep_ns, load_module,
}

-- Inversion of seven steps in a row, of which each sees the results before it.
seven_steps-eq-ok :
    {A B C D E F G R : Type 0} (m1 : Res A) (m2 : A → Res B) (m3 : A → Res C) (m4 : C → Res D)
    (m5 : B → Res E) (m6 : Res F) (m7 : B → D → E → F → Res G) (k : A → C → G → R) {r : R}
    → (do
      a ← m1
      b ← m2 a
      d ← m3 a
      stack ← m4 d
      code ← m5 b
      power ← m6
      made ← m7 b stack code power
      ok (k a d made))
      ≡ ok r
    → (a : A) × (b : B) × (d : C) × (stack : D) × (code : E) × (power : F) × (made : G) × (m1
        ≡ ok a)
      × (m2 a ≡ ok b)
      × (m3 a ≡ ok d)
      × (m4 d ≡ ok stack)
      × (m5 b ≡ ok code)
      × (m7 b stack code power ≡ ok made)
      × (k a d made ≡ r)
seven_steps-eq-ok m1 m2 m3 m4 m5 m6 m7 k e =
    let (a, e1, r1) = >>=-eq-ok m1 _ e in
    let (b, e2, r2) = >>=-eq-ok (m2 a) _ r1 in
    let (d, e3, r3) = >>=-eq-ok (m3 a) _ r2 in
    let (stack, e4, r4) = >>=-eq-ok (m4 d) _ r3 in
    let (code, e5, r5) = >>=-eq-ok (m5 b) _ r4 in
    let (power, e6, r6) = >>=-eq-ok m6 _ r5 in
    let (made, e7, r7) = >>=-eq-ok (m7 b stack code power) _ r6 in
    (a, b, d, stack, code, power, made, e1, e2, e3, e4, e5, e7, ok_injective r7)

module _ (c : Cheri) (h : Host c.Cap) where
  open c use {Cap}

  -- What a load that returns has done.
  pub record IsLoaded (s : Init Cap) (type : ModuleType) (file : List ℕ) (arg : ℕ) (carg : Cap)
      (r : Option Cap) (s' : Init Cap) : Type 0 where
    pub block : Cap
    pub entry : ℕ
    pub pool1 : Pool Cap
    pub stack : Cap
    pub pool2 : Pool Cap
    pub one : Started Cap
    pub found : elf_loader c h s.pool (h.load file) ≡ ok (some (block, entry), pool1)
    pub roomy : init_alloc c h.mmap pool1 stack_size ≡ ok (some stack, pool2)
    pub code : code_cap c h (c.inc_offset block entry) entry ≡ ok one.frame.cf_pcc
    pub stacked : one.frame.cf_c11 ≡ stack
    pub pointer : one.frame.mf_sp ≡ c.get_len stack
    pub typed : one.type ≡ type
    pub ref : one.frame.cf_c23 ≡ s.ns_ref
    pub id : one.frame.cf_c24 ≡ s.ns_id
    pub started : s'.started ≡ one ∷ s.started
    pub ends :
        launched c h (record s { pool = pool2; started = one ∷ s.started }) type one.ctrl ≡ (r, s')

  launched-started :
      (s : Init Cap) (type : ModuleType) (ctrl : Cap)
      → (launched c h s type ctrl).1.started ≡ s.started
  unfolding launched keep_ns
  launched-started s m_namespace ctrl = ground arith
  launched-started s m_memmgt ctrl = ground arith
  launched-started s m_uart ctrl = ground arith
  launched-started s m_fs ctrl = ground arith
  launched-started s m_core ctrl = ground arith
  launched-started s m_user ctrl = ground arith
  launched-started s m_fence ctrl = ground arith

  or_assert-eq-ok {ℓ} : {A : Type ℓ} (o : Option A) {a : A} → or_assert c h o ≡ ok a → o ≡ some a
  or_assert-eq-ok none e = cc
  or_assert-eq-ok (some b) e = cc

  init_act_create-inv :
      (file : List ℕ) (c0 pcc stack act_cap ref id : Cap) (fc : StartFrame Cap × Cap)
      → init_act_create c h file c0 pcc stack act_cap ref id ≡ ok fc
      → (fc.0.cf_c11 ≡ stack)
        × (fc.0.mf_sp ≡ c.get_len stack)
        × (fc.0.cf_pcc ≡ pcc)
        × (fc.0.cf_c23 ≡ ref)
        × (fc.0.cf_c24 ≡ id)
  unfolding init_act_create
  init_act_create-inv file c0 pcc stack act_cap ref id fc e = ground arith

  pub load_module-IsLoaded :
      (s : Init Cap) (type : ModuleType) (file : List ℕ) (arg : ℕ) (carg : Cap) (r : Option Cap)
      (s' : Init Cap)
      → load_module c h s type file arg carg ≡ ok (r, s')
      → IsLoaded s type file arg carg r s'
  unfolding load_module
  load_module-IsLoaded s type file arg carg r s' e =
      let (a, b, d, stack, pcc, act_cap, fc, e1, e2, e3, e4, e5, e7, ends) =
        seven_steps-eq-ok (elf_loader c h s.pool (h.load file)) (λ a. or_assert c h a.0)
          (λ a. init_alloc c h.mmap a.1 stack_size) (λ d. or_assert c h d.0)
          (λ b. code_cap c h (c.inc_offset b.0 b.1) b.1) (get_act_cap c h type)
          (λ b stack pcc act_cap.
            init_act_create c h file (c.set_offset (c.inc_offset b.0 b.1) 0) pcc stack act_cap
              s.ns_ref s.ns_id)
          (λ a d fc.
            launched c h
              (record s {
                pool = d.1;
                started =
                    record { type = type; frame = fc.0; rarg = arg; carg = carg; ctrl = fc.1 }
                    ∷ s.started;
              })
              type fc.1)
          e in
      let (sets, sets_sp, sets_pcc, sets_ref, sets_id) =
        init_act_create-inv file (c.set_offset (c.inc_offset b.0 b.1) 0) pcc stack act_cap s.ns_ref
          s.ns_id fc e7 in
      record {
        block = b.0;
        entry = b.1;
        pool1 = a.1;
        stack = stack;
        pool2 = d.1;
        one = record { type = type; frame = fc.0; rarg = arg; carg = carg; ctrl = fc.1 };
        found = e1 ∙ ap (λ o. ok (o, a.1)) (or_assert-eq-ok a.0 e2);
        roomy = e3 ∙ ap (λ o. ok (o, d.1)) (or_assert-eq-ok d.0 e4);
        code = e5 ∙ ap ok (sym sets_pcc);
        stacked = sets;
        pointer = sets_sp;
        typed = refl;
        ref = sets_ref;
        id = sets_id;
        started = ap (λ x. x.1.started) (sym ends) ∙ launched-started _ type fc.1;
        ends = ends;
      }
