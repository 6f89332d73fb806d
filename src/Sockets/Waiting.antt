-- ===== src/Sockets/Waiting.antt =====
-- A message waits in its socket while other programs, and its owner's other calls, are served.
use cherios.Base.{
  ℕ, ◌≤◌, ◌≡◌, ◌≢◌, ◌∙◌, sym, ap, ◌⊎◌, Option, none, some, Res, ok, ◌>>=◌, >>=-eq-ok, ok_injective,
  subst, arith,
}
use cherios.Sockets.Links.{with_msg}
use cherios.Sockets.{
  Net, max_socket, socket_at, port_at, socket, bind, connect, link, link_port, port_socket,
  is_closed, recfrom, send_peer, sendto,
}

-- A request of a program, with its arguments
pub data Request (Msg : Type 0) : Type 0 where
  opens : Request Msg
  binds : ℕ → ℕ → Request Msg
  connects : ℕ → ℕ → Request Msg
  receives : ℕ → Request Msg
  sends : ℕ → Option Msg → Request Msg

module _ {Msg : Type 0} where
  -- What the service's table is after a program's request; the first number of a cookie is its owner.
  unfoldable pub serve : Net Msg → Option ℕ → Request Msg → Res (Net Msg)
  unfolding socket bind connect recfrom sendto
  serve n cookie opens = do (_, n') ← socket n cookie; ok n'
  serve n cookie (binds s port) = do (_, n') ← bind n s port; ok n'
  serve n cookie (connects s port) = do (_, n') ← connect n s port; ok n'
  serve n cookie (receives s) = do (_, n') ← recfrom n cookie s; ok n'
  serve n cookie (sends s m) = do (_, n') ← sendto n cookie s m; ok n'

  module _ (s oid : ℕ) (m : Msg) where
    -- In an open socket of this owner the message waits.
    pub record Holds (n : Net Msg) : Type 0 where
      pub on : (n.sockets s).status ≢ 0
      pub owned : (n.sockets s).oid ≡ oid
      pub waits : (n.sockets s).msg ≡ some m

    socket-Holds :
        (n n' : Net Msg) (k : Option ℕ) (r : ℕ) → Holds n → socket n k ≡ ok (r, n') → Holds n'
    unfolding socket
    socket-Holds n n' none r v e = cc
    socket-Holds n n' (some k) r v e = record {
      on = ground (arith, v.on);
      owned = ground (arith, v.on, v.owned);
      waits = ground (arith, v.on, v.waits);
    }

    bind-sockets :
        (n n' : Net Msg) (i port r : ℕ) → bind n i port ≡ ok (r, n') → n'.sockets s ≡ n.sockets s
    unfolding bind is_closed port_at socket_at
    bind-sockets n n' i port r e = ground arith

    recfrom-sockets :
        (n n' : Net Msg) (k : Option ℕ) (i : ℕ) (r : Option Msg)
        → (n.sockets s).oid ≡ oid
        → (k ≢ some oid) ⊎ (i ≢ s)
        → recfrom n k i ≡ ok (r, n')
        → n'.sockets s ≡ n.sockets s
    unfolding recfrom is_closed socket_at
    recfrom-sockets n n' none i r own other e = ground arith
    recfrom-sockets n n' (some k) i r own other e = ground arith

    sendto-sockets :
        (n n' : Net Msg) (k : Option ℕ) (i : ℕ) (o : Option Msg) (r : ℕ)
        → (n.sockets s).msg ≡ some m
        → sendto n k i o ≡ ok (r, n')
        → n'.sockets s ≡ n.sockets s
    unfolding sendto send_peer socket_at
    sendto-sockets n n' none i o r full e = ground arith
    sendto-sockets n n' (some k) i o r full e = ground arith

    connect-Holds :
        (n n' : Net Msg) (i port r : ℕ) → Holds n → connect n i port ≡ ok (r, n') → Holds n'
    unfolding connect is_closed port_at socket_at port_socket link_port link
    connect-Holds n n' i port r v e = record {
      on = ground (arith, v.on);
      owned = ground (arith, v.owned);
      waits = ground (arith, v.waits);
    }

    -- The request is not the owner's `recfrom` of this socket.
    abbrev pub Leaves : Option ℕ → Request Msg → Type 0
    Leaves k opens = Unit
    Leaves k (binds i port) = Unit
    Leaves k (connects i port) = Unit
    Leaves k (receives i) = (k ≢ some oid) ⊎ (i ≢ s)
    Leaves k (sends i o) = Unit

    -- One request after the other leads from `n` to the second table.
    pub data Run (n : Net Msg) : Net Msg → Type 0 where
      ends : Run n n
      then_serve :
          (n1 n2 : Net Msg) (k : Option ℕ) (r : Request Msg)
          → Run n n1
          → Leaves k r
          → serve n1 k r ≡ ok n2
          → Run n n2

    same-Holds : (n n' : Net Msg) → Holds n → n'.sockets s ≡ n.sockets s → Holds n'
    same-Holds n n' v e = record {
      on = λ z. v.on (ap (λ x. x.status) (sym e) ∙ z);
      owned = ap (λ x. x.oid) e ∙ v.owned;
      waits = ap (λ x. x.msg) e ∙ v.waits;
    }

    serve-Holds :
        (n n' : Net Msg) (k : Option ℕ) (r : Request Msg)
        → Holds n
        → Leaves k r
        → serve n k r ≡ ok n'
        → Holds n'
    unfolding serve
    serve-Holds n n' k opens v other e =
        let ((r, n1), went, last) = >>=-eq-ok (socket n k) _ e in
        subst Holds (ok_injective last) (socket-Holds n n1 k r v went)
    serve-Holds n n' k (binds i port) v other e =
        let ((r, n1), went, last) = >>=-eq-ok (bind n i port) _ e in
        subst Holds (ok_injective last) (same-Holds n n1 v (bind-sockets n n1 i port r went))
    serve-Holds n n' k (connects i port) v other e =
        let ((r, n1), went, last) = >>=-eq-ok (connect n i port) _ e in
        subst Holds (ok_injective last) (connect-Holds n n1 i port r v went)
    serve-Holds n n' k (receives i) v other e =
        let ((r, n1), went, last) = >>=-eq-ok (recfrom n k i) _ e in
        subst Holds (ok_injective last)
          (same-Holds n n1 v (recfrom-sockets n n1 k i r v.owned other went))
    serve-Holds n n' k (sends i o) v other e =
        let ((r, n1), went, last) = >>=-eq-ok (sendto n k i o) _ e in
        subst Holds (ok_injective last)
          (same-Holds n n1 v (sendto-sockets n n1 k i o r v.waits went))

    -- A message that waits in an open socket waits there whatever the service is asked, as long as
    -- the socket's owner does not receive from it.
    pub Run-Holds : (n n' : Net Msg) → Holds n → Run n n' → Holds n'
    Run-Holds n n' v ends = v
    Run-Holds n n' v (then_serve n1 n2 k r run other e) =
        serve-Holds n1 n2 k r (Run-Holds n n1 v run) other e

    -- The owner's `recfrom` takes the message that waits.
    pub recfrom-Holds :
        (n : Net Msg)
        → Holds n
        → s ≤ max_socket
        → recfrom n (some oid) s ≡ ok (some m, with_msg n s none)
    unfolding recfrom is_closed socket_at
    recfrom-Holds n v low = ground (arith, v.on, v.owned, v.waits)

  pub sent-Holds :
      (n : Net Msg) (s : ℕ) (m : Msg)
      → (n.sockets s).status ≢ 0
      → Holds s (n.sockets s).oid m (with_msg n s (some m))
  sent-Holds n s m on = record {
    on = ground (arith, on);
    owned = ground arith;
    waits = ground arith;
  }
