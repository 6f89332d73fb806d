-- ===== src/Namespace/Service.antt =====
-- namespace/src/main.c: the name server's methods, as messages reach them.
use cherios.Base.{ℕ, [], ◌∷◌, ok}
use cherios.Cheri.{Cheri}
use cherios.Namespace.{Binding, ns_register, ns_get_reference, ns_get_identifier}
use cherios.Libuser.Server.{Method, Methods, sign_extend, as_int, null_method, void_method}

module _ (c : Cheri) where
  open c use {Cap}

  abbrev pub Table : Type 0
  Table = ℕ → Binding Cap

  -- `ns_register`, `ns_get_reference` and `ns_get_identifier` on the registers
  abbrev register_method : Method Cap Table
  register_method f s =
      let (ret, bind) = ns_register c s.own (as_int f.a0) f.c3 f.c4 in
      ok (record f { v0 = sign_extend ret }, record s { own = bind })

  abbrev get_reference_method : Method Cap Table
  get_reference_method f s = ok (record f { c3 = ns_get_reference c s.own (as_int f.a0) }, s)

  abbrev get_identifier_method : Method Cap Table
  get_identifier_method f s = ok (record f { c3 = ns_get_identifier c s.own (as_int f.a0) }, s)

  unfoldable pub ns_methods : Methods Cap Table
  ns_methods = record {
    msg_methods = register_method ∷ get_reference_method ∷ get_identifier_method ∷ [];
    ctrl_methods = null_method ∷ void_method ∷ void_method ∷ [];
  }
