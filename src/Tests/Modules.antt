-- ===== src/Tests/Modules.antt =====
-- Init with a list of four entries, on the demonstration kernel.
use cherios.Base.{ℕ, ◌+◌, ◌*◌, ◌≡◌, ◌⊎◌, refl, List, [], ◌∷◌, Option, none, some, Halt, ok, halt}
use cherios.Kernel.Env.{kernel_unseal, act_index}
use cherios.Kernel.Act.{ctrl_aid, act_get_status}
use cherios.Boot.Modules.{
  ModuleType, m_memmgt, m_namespace, m_user, m_fence, InitElem, Loading, Loader, load_modules,
  acts_alive,
}
use cherios.Boot.Modules.Order.{loads, AllSame, Stops, load_modules-order}
use cherios.Boot.Modules.Waiting.{OnlyDaemons, SomeProgram, acts_alive-cases}
use cherios.Tests.Toy.{Toy, toy, toy_default, table_at, demo}

abbrev entry : ModuleType → ℕ → ℕ → Option Toy → InitElem Toy
entry type letter daemon ctrl = record {
  type = type;
  cond = 1;
  name = letter ∷ [];
  arg = 0;
  daemon = daemon;
  ctrl = ctrl;
}

abbrev modules : List (InitElem Toy)
modules =
    entry m_memmgt 109 1 none
    ∷ entry m_namespace 110 1 none
    ∷ entry m_fence 0 0 none
    ∷ entry m_user 117 0 none
    ∷ []

abbrev loader : Loader Toy
loader calls type name arg = ok (some toy_default)

abbrev nothing_yet : Loading Toy
nothing_yet = record { calls = []; c_memmgt = none }

load_modules-order_example :
    ((reason : Halt) × Stops loader reason
      × (load_modules loader nothing_yet modules ≡ halt reason))
    ⊎ ((loaded : List (InitElem Toy)) × (s : Loading Toy) × (load_modules loader nothing_yet modules
          ≡ ok (loaded, s))
        × (loads s.calls
            ≡ (m_memmgt, 109 ∷ [], 0) ∷ (m_namespace, 110 ∷ [], 0) ∷ (m_user, 117 ∷ [], 0) ∷ [])
        × AllSame modules loaded)
load_modules-order_example = load_modules-order loader nothing_yet modules

-- Activation 2 as a program
abbrev running_modules : List (InitElem Toy)
running_modules =
    entry m_fence 0 0 none
    ∷ entry m_user 117 0
        (some (record toy_default { sealed_by = some 42001; offset = 0x10000 + 2 * 256 }))
    ∷ []

acts_alive-cases_example :
    ((acts_alive (act_get_status toy table_at demo) running_modules ≡ ok 0)
      × OnlyDaemons toy table_at demo running_modules)
    ⊎ ((acts_alive (act_get_status toy table_at demo) running_modules ≡ ok 1)
        × SomeProgram toy table_at demo running_modules)
unfolding ctrl_aid kernel_unseal act_index
acts_alive-cases_example = acts_alive-cases toy table_at demo running_modules (tt, ((2, refl), tt))
