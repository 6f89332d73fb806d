-- ===== src/Boot/Modules/Order.antt =====
-- The order in which `load_modules` of boot/src/init/init.c loads.
use cherios.Base.{
  ◌⊎◌, ok, halt, Halt, Res-cases, ℕ, ◌≡◌, refl, sym, ap, ◌∙◌, Bool-cases, inl, inr, List, [], ◌∷◌,
  ◌++◌, Option, ◌==◌, if◌then◌else◌,
}
use mathlib.Core.List.{append_assoc, append-nil}
use cherios.Boot.Modules.{
  ModuleType, m_memmgt, m_namespace, m_uart, m_fs, m_core, m_user, m_fence, is_fence, InitElem,
  nssleep, Call, load_module, Loading, Loader, after_load, load_one, load_modules,
}

module _ {Cap : Type 0} where
  -- What has been loaded, oldest first: the type, the name and the argument.
  abbrev pub loads : List (Call Cap) → List (ModuleType × List ℕ × ℕ)
  loads [] = []
  loads (load_module type name arg ctrl ∷ calls) = loads calls ++ (type, name, arg) ∷ []
  loads (_ ∷ calls) = loads calls

  -- The entries that are to be loaded.
  abbrev pub wanted : List (InitElem Cap) → List (ModuleType × List ℕ × ℕ)
  wanted [] = []
  wanted (be ∷ init_list) =
      if be.cond == 0
      then wanted init_list
      else (if is_fence be.type
          then wanted init_list
          else (be.type, be.name, be.arg) ∷ wanted init_list)

  loads-after :
      (s : Loading Cap) (type : ModuleType) (ctrl : Option Cap)
      → loads (after_load s type ctrl).calls ≡ loads s.calls
  unfolding after_load
  loads-after s m_memmgt ctrl = refl
  loads-after s m_namespace ctrl = refl
  loads-after s m_uart ctrl = refl
  loads-after s m_fs ctrl = refl
  loads-after s m_core ctrl = refl
  loads-after s m_user ctrl = refl
  loads-after s m_fence ctrl = refl

  -- Only the control reference differs.
  abbrev pub AllSame : List (InitElem Cap) → List (InitElem Cap) → Type 0
  AllSame [] [] = Unit
  AllSame [] (_ ∷ _) = ⊥
  AllSame (_ ∷ _) [] = ⊥
  AllSame (be ∷ l) (be' ∷ l') = (be' ≡ record be { ctrl = be'.ctrl }) × AllSame l l'

  -- The loader stops with this reason in some call.
  abbrev pub Stops : Loader Cap → Halt → Type 0
  Stops load reason =
      (calls : List (Call Cap)) × (type : ModuleType) × (name : List ℕ) × (arg : ℕ) × (load calls
          type name arg
        ≡ halt reason)

  -- A round stops where the loader does, or returns.
  one-cases :
      (load : Loader Cap) (s : Loading Cap) (be : InitElem Cap)
      → ((reason : Halt) × Stops load reason × (load_one load s be ≡ halt reason))
        ⊎ ((be' : InitElem Cap) × (s' : Loading Cap) × (load_one load s be ≡ ok (be', s'))
            × (be' ≡ record be { ctrl = be'.ctrl })
            × ((l : List (InitElem Cap))
                → loads s'.calls ++ wanted l ≡ loads s.calls ++ wanted (be ∷ l)))
  unfolding load_one
  one-cases load s be = elim (Bool-cases (be.cond == 0)) [
    | inl off ↦ inr (be, s, rw off refl, refl, λ l. rw off refl)
    | inr on ↦ elim (Bool-cases (is_fence be.type)) [
      | inl fence ↦ inr (
        be,
        record s { calls = nssleep 3 ∷ s.calls },
        rw (on, fence) refl,
        refl,
        λ l. rw (on, fence) refl,
      )
      | inr plain ↦ elim (Res-cases (load s.calls be.type be.name be.arg)) [
        | inl (reason, stops) ↦
            inl (reason, (s.calls, be.type, be.name, be.arg, stops), rw (on, plain, stops) refl)
        | inr (ctrl, loaded) ↦ inr (
          record be { ctrl = ctrl },
          after_load (record s { calls = load_module be.type be.name be.arg ctrl ∷ s.calls })
              be.type ctrl,
          rw (on, plain, loaded) refl,
          refl,
          λ l.
              rw (on, plain)
                (ap (λ x. x ++ wanted l) (loads-after _ be.type ctrl)
                  ∙ append_assoc (loads s.calls) ((be.type, be.name, be.arg) ∷ []) (wanted l)),
        )
      ]
    ]
  ]

  -- `load_modules` stops if the loader does in a call, and for the same reason. Otherwise it ends,
  -- and has loaded each entry of the list whose condition holds and that is no fence, with the
  -- entry's type, name and argument, once and in the list's order; and it has changed nothing of an
  -- entry but for the control reference.
  pub load_modules-order :
      (load : Loader Cap) (s : Loading Cap) (init_list : List (InitElem Cap))
      → ((reason : Halt) × Stops load reason × (load_modules load s init_list ≡ halt reason))
        ⊎ ((loaded : List (InitElem Cap)) × (s' : Loading Cap) × (load_modules load s init_list
              ≡ ok (loaded, s'))
            × (loads s'.calls ≡ loads s.calls ++ wanted init_list)
            × AllSame init_list loaded)
  unfolding load_modules
  load_modules-order load s [] = inr ([], s, refl, sym (append-nil (loads s.calls)), tt)
  load_modules-order load s (be ∷ init_list) = elim (one-cases load s be) [
    | inl (reason, where_from, stops) ↦ inl (reason, where_from, rw stops refl)
    | inr (be', s1, done, same, one) ↦ elim (load_modules-order load s1 init_list) [
      | inl (reason, where_from, stops) ↦ inl (reason, where_from, rw (done, stops) refl)
      | inr (rest, s2, all, order, others) ↦
          inr (be' ∷ rest, s2, rw (done, all) refl, order ∙ one init_list, (same, others))
    ]
  ]
