-- ===== src/Boot/Modules.antt =====
-- boot/src/init/init.c and the end of init_utils.c: init loads the modules of a list in order, and
-- waits until only daemons are left. `load_module` is a parameter: what it returns may depend on
-- what has been done before, and it may stop init. Printing is left out.
pub mod Order
pub mod Waiting
use cherios.Base.{
  ℕ, zero, suc, ◌%◌, Bool, true, false, List, [], ◌∷◌, Option, none, some, Res, ok, ◌>>=◌, ◌==◌,
  if◌then◌else◌, two_32,
}

-- `module_t`
pub data ModuleType : Type 0 where
  m_memmgt m_namespace m_uart m_fs m_core m_user m_fence : ModuleType

abbrev pub is_fence : ModuleType → Bool
is_fence m_fence = true
is_fence _ = false

-- `init_elem_t`; a name is a list of characters, and `status` is never used.
pub record InitElem (Cap : Type 0) : Type 0 where
  pub type : ModuleType
  pub cond : ℕ
  pub name : List ℕ
  pub arg : ℕ
  pub daemon : ℕ
  pub ctrl : Option Cap

-- What `load_modules` calls, with its arguments: `nssleep`, `load_module` with its result,
-- `init_alloc_enable_system` and `glue_memmgt`.
pub data Call (Cap : Type 0) : Type 0 where
  nssleep : ℕ → Call Cap
  load_module : ModuleType → List ℕ → ℕ → Option Cap → Call Cap
  enable_system : Option Cap → Call Cap
  glue_memmgt : Option Cap → Option Cap → Call Cap

-- The calls so far, newest first, and the static `c_memmgt`
pub record Loading (Cap : Type 0) : Type 0 where
  pub calls : List (Call Cap)
  pub c_memmgt : Option Cap

-- `load_module(type, name, arg, NULL)` after these calls; NULL is `none`.
abbrev pub Loader : Type 0 → Type 0
Loader Cap = List (Call Cap) → ModuleType → List ℕ → ℕ → Res (Option Cap)

module _ {Cap : Type 0} where
  -- `switch(init_list[i].type)`
  unfoldable pub after_load : Loading Cap → ModuleType → Option Cap → Loading Cap
  after_load s m_memmgt ctrl = record {
    calls = enable_system ctrl ∷ nssleep 3 ∷ s.calls;
    c_memmgt = ctrl;
  }
  after_load s m_namespace ctrl = record s {
    calls = glue_memmgt s.c_memmgt ctrl ∷ nssleep 3 ∷ s.calls;
  }
  after_load s _ ctrl = s

  -- One round of the loop
  unfoldable pub load_one :
      Loader Cap → Loading Cap → InitElem Cap → Res (InitElem Cap × Loading Cap)
  unfolding after_load
  load_one load s be =
      if be.cond == 0
      then ok (be, s)
      else (if is_fence be.type then ok (be, record s { calls = nssleep 3 ∷ s.calls }) else (do
        ctrl ← load s.calls be.type be.name be.arg
        let call = load_module be.type be.name be.arg ctrl
        ok (
          record be { ctrl = ctrl },
          after_load (record s { calls = call ∷ s.calls }) be.type ctrl,
        )))

  unfoldable pub load_modules :
      Loader Cap → Loading Cap → List (InitElem Cap) → Res (List (InitElem Cap) × Loading Cap)
  unfolding load_one
  load_modules load s [] = ok ([], s)
  load_modules load s (be ∷ init_list) = do
    (be1, s1) ← load_one load s be
    (rest, s2) ← load_modules load s1 init_list
    ok (be1 ∷ rest, s2)

  -- `status` is the system call for an activation's status. A null reference is not alive.
  unfoldable pub act_alive : (Cap → Res ℕ) → Option Cap → Res Bool
  act_alive status none = ok false
  act_alive status (some ctrl) = do ret ← status ctrl; ok (if ret == 2 then false else true)

  -- `nb`, which the loop leaves at the first module that is alive.
  unfoldable pub acts_alive : (Cap → Res ℕ) → List (InitElem Cap) → Res ℕ
  unfolding act_alive
  acts_alive status [] = ok 0
  acts_alive status (be ∷ init_list) =
      let rest = acts_alive status init_list in
      if be.daemon == 0
      then (do alive ← act_alive status be.ctrl; if alive then ok 1 else rest)
      else rest
