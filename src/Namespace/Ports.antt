-- ===== src/Namespace/Ports.antt =====
-- A port is bound at most once, to a matching pair of sealed capabilities.
use cherios.Base.{ℕ, ◌≡◌, ◌∙◌, refl, true, false, List, [], ◌∷◌, arith}
use cherios.Cheri.{Cheri}
use cherios.Namespace.{
  Binding, validate_idx, validate_act_caps, ns_get_reference, ns_get_identifier, ns_register,
}

module _ (c : Cheri) where
  open c use {Cap}

  -- What a service is registered by.
  abbrev pub Request : Type 0
  Request = ℕ × Cap × Cap

  abbrev Table : Type 0
  Table = ℕ → Binding Cap

  -- A client's registrations, one after the other.
  pub register_all : Table → List Request → Table
  register_all bind [] = bind
  register_all bind ((nb, reference, id) ∷ rs) =
      register_all (ns_register c bind nb reference id).1 rs

  -- A port in use keeps its reference and its identifier through one registration.
  register-keeps :
      (bind : Table) (nb port : ℕ) (reference id : Cap)
      → c.is_null (bind port).act_reference ≡ false
      → (ns_register c bind nb reference id).1 port ≡ bind port
  unfolding ns_register
  register-keeps bind nb port reference id used = ground arith

  register_all-keeps :
      (bind : Table) (rs : List Request) (port : ℕ)
      → c.is_null (bind port).act_reference ≡ false
      → register_all bind rs port ≡ bind port
  unfolding register_all
  register_all-keeps bind [] port used = refl
  register_all-keeps bind ((nb, reference, id) ∷ rs) port used =
      let one = register-keeps bind nb port reference id used in
      register_all-keeps (ns_register c bind nb reference id).1 rs port (rw one used) ∙ one

  registered-port :
      (bind : Table) (nb : ℕ) (reference id : Cap)
      → (ns_register c bind nb reference id).0 ≡ 0
      → (validate_idx nb ≡ true)
        × (validate_act_caps c reference id ≡ true)
        × ((ns_register c bind nb reference id).1 nb
            ≡ record { act_reference = reference; act_default_id = id })
  unfolding ns_register
  registered-port bind nb reference id e = ground arith

  -- The first registration of a port stands: whatever is registered afterwards, clients of the
  -- port get its reference and its identifier, which are sealed with one type.
  pub register-stands :
      (bind : Table) (nb : ℕ) (reference id : Cap) (rs : List Request)
      → c.is_null reference ≡ false
      → (ns_register c bind nb reference id).0 ≡ 0
      → let later = register_all (ns_register c bind nb reference id).1 rs in
        (ns_get_reference c later nb ≡ reference)
        × (ns_get_identifier c later nb ≡ id)
        × (c.get_type reference ≡ c.get_type id)
        × (c.get_sealed reference ≡ true)
        × (c.get_sealed id ≡ true)
  unfolding ns_get_reference ns_get_identifier validate_act_caps
  register-stands bind nb reference id rs live e =
      let (index, caps, here) = registered-port bind nb reference id e in
      let same =
        register_all-keeps (ns_register c bind nb reference id).1 rs nb (rw here live) ∙ here in
      (rw (index, same) refl, rw (index, same) refl, ground arith, ground arith, ground arith)
