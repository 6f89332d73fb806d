-- ===== src/Namespace/Directory.antt =====
-- The name server as its clients see it: libuser/src/namespace.c and namespace/src over the kernel.
use cherios.Base.{ℕ, ◌<◌, ◌≡◌, refl, sym, ap, ◌∙◌, false, List, ok, ok_injective, arith, two_32}
use cherios.Cheri.{Cheri, Laws}
use cherios.Kernel.State.{Kernel, Frame, current, set_current}
use cherios.Kernel.Env.{Layout}
use cherios.Namespace.{ns_register, ns_get_reference, ns_get_identifier}
use cherios.Namespace.Ports.{Request, register_all, register-stands}
use cherios.Namespace.Service.{Table, ns_methods}
use cherios.Libuser.{ccall_r_c, ccall_rcc_r}
use cherios.Libuser.Client.{Calls}
use cherios.Libuser.Namespace.{namespace_register, namespace_get_ref}
use cherios.Libuser.Server.{Server, sign_extend, as_int, msg_entry, exchange}
use cherios.Libuser.Server.Served.{Serves, ccall_4-served}

pub as_int-sign_extend : (n : ℕ) → n < two_32 → as_int (sign_extend n) ≡ n
as_int-sign_extend n h = ground arith

module _ (c : Cheri) (bind : Table c) (nb : ℕ) (low : nb < two_32) (id : c.Cap) where
  open c use {Cap}

  register-lt : (r i : Cap) → (ns_register c bind nb r i).0 < two_32
  unfolding ns_register
  register-lt r i = ground arith

  pub register-Serves :
      (r i : Cap)
      → Serves c
          (ns_methods c)
          bind
          (ns_register c bind nb r i).1
          0
          (sign_extend nb)
          0
          0
          r
          i
          c.null
          id
          (λ v. as_int v.0)
          (ns_register c bind nb r i).0
  unfolding msg_entry ns_methods
  register-Serves r i = record {
    result = λ f. record f { v0 = sign_extend (ns_register c bind nb r i).0 };
    answers = λ f t passed same.
        rw (passed.method, passed.a0, passed.c3, passed.c4, as_int-sign_extend nb low) refl;
    token = λ f. refl;
    value = λ f passed. as_int-sign_extend _ (register-lt r i);
  }

  pub get_reference-Serves :
      Serves c
        (ns_methods c)
        bind
        bind
        1
        (sign_extend nb)
        0
        0
        c.null
        c.null
        c.null
        id
        (λ v. v.1)
        (ns_get_reference c bind nb)
  unfolding msg_entry ns_methods
  get_reference-Serves = record {
    result = λ f. record f { c3 = ns_get_reference c bind nb };
    answers = λ f t passed same. rw (passed.method, passed.a0, as_int-sign_extend nb low) refl;
    token = λ f. refl;
    value = λ f passed. refl;
  }

  get_identifier-Serves :
      Serves c
        (ns_methods c)
        bind
        bind
        2
        (sign_extend nb)
        0
        0
        c.null
        c.null
        c.null
        id
        (λ v. v.1)
        (ns_get_identifier c bind nb)
  unfolding msg_entry ns_methods
  get_identifier-Serves = record {
    result = λ f. record f { c3 = ns_get_identifier c bind nb };
    answers = λ f t passed same. rw (passed.method, passed.a0, as_int-sign_extend nb low) refl;
    token = λ f. refl;
    value = λ f passed. refl;
  }

module _ (c : Cheri) (laws : Laws c) (l : Layout) (nb : ℕ) (low : nb < two_32) where
  open c use {Cap}

  -- A program's call of the name server that has come back.
  module _ (k : Kernel Cap) (ns_ref ns_id r i : Cap) (f0 : Frame Cap) (target : ℕ)
      (id bare t last : Cap) (bind : Table c) where
    registered :
        (k2 : Kernel Cap) (s2 : Server Cap (Table c))
        → Calls c laws l k ns_ref ns_id 0 (sign_extend nb) 0 0 r i c.null f0 target id bare t
        → exchange c l (ns_methods c) (set_current k f0) (record { own = bind; sync_token = last })
          ≡ ok (k2, s2)
        → ((namespace_register c (current k) ns_ref ns_id nb r i).returns (current k2)
            ≡ (ns_register c bind nb r i).0)
          × (s2.own ≡ (ns_register c bind nb r i).1)
    unfolding namespace_register ccall_rcc_r
    registered k2 s2 calls went =
        let (k2', done, _, _, value) =
          ccall_4-served c laws l (ns_methods c) k ns_ref ns_id 0 (sign_extend nb) 0 0 r i c.null f0
            target id bare t last bind (ns_register c bind nb r i).1 (λ v. as_int v.0)
            (ns_register c bind nb r i).0 calls (register-Serves c bind nb low id r i) in
        let same = ok_injective (sym went ∙ done) in
        (
          ap (λ p. (namespace_register c (current k) ns_ref ns_id nb r i).returns (current p.0))
                same
              ∙ value,
          ap (λ p. p.1.own) same,
        )

  -- What a program registers at the name server is found there: if `namespace_register` of a port
  -- has given 0, then whatever has been registered since, a program's `namespace_get_ref` of the
  -- port ends, gives the reference that was registered, and leaves the table as it is. Both programs
  -- run in a running kernel and call a name server that waits for a message, no capability
  -- instruction traps, and fewer than 2^28 calls have been made.
  pub namespace_register-get_ref :
      (k k2 k' : Kernel Cap) (ns_ref ns_id r i ns_ref' ns_id' : Cap) (f0 f0' : Frame Cap)
      (target target' : ℕ) (id bare t last id' bare' t' last' : Cap) (bind : Table c)
      (s2 : Server Cap (Table c)) (rs : List (Request c))
      → Calls c laws l k ns_ref ns_id 0 (sign_extend nb) 0 0 r i c.null f0 target id bare t
      → exchange c l (ns_methods c) (set_current k f0) (record { own = bind; sync_token = last })
        ≡ ok (k2, s2)
      → (namespace_register c (current k) ns_ref ns_id nb r i).returns (current k2) ≡ 0
      → c.is_null r ≡ false
      → Calls c laws l k' ns_ref' ns_id' 1
          (sign_extend nb)
          0
          0
          c.null
          c.null
          c.null
          f0'
          target'
          id'
          bare'
          t'
      → let later = register_all c s2.own rs in
        (k3 : Kernel Cap) × (exchange c l
            (ns_methods c)
            (set_current k' f0')
            (record { own = later; sync_token = last' })
          ≡ ok (k3, record { own = later; sync_token = t' }))
        × (k3.curr_act ≡ k'.curr_act)
        × ((namespace_get_ref c (current k') ns_ref' ns_id' nb).returns (current k3) ≡ r)
  unfolding namespace_get_ref ccall_r_c
  namespace_register-get_ref k k2 k' ns_ref ns_id r i ns_ref' ns_id' f0 f0' target target' id bare t
        last id' bare' t' last' bind s2 rs calls went zero live calls' =
      let (answered, table) =
        registered k ns_ref ns_id r i f0 target id bare t last bind k2 s2 calls went in
      let stands = register-stands c bind nb r i rs live (sym answered ∙ zero) in
      let later = register_all c s2.own rs in
      let (k3, done, _, who, value) =
        ccall_4-served c laws l (ns_methods c) k' ns_ref' ns_id' 1 (sign_extend nb) 0 0 c.null
          c.null c.null f0' target' id' bare' t' last' later later (λ v. v.1)
          (ns_get_reference c later nb) calls' (get_reference-Serves c later nb low id') in
      let found = ap (λ b. ns_get_reference c (register_all c b rs) nb) table ∙ stands.0 in
      (k3, done, who, value ∙ found)
