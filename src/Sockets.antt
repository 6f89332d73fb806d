-- ===== src/Sockets.antt =====
-- sockets/src/sockets.c: sockets that pass one message at a time. An `int` is its 32-bit pattern.
-- The cookie of the calling client is `none` for NULL and otherwise the number that it points to;
-- a message is `none` for NULL.
pub mod Links
pub mod Service
pub mod Client
pub mod Waiting
pub mod Passing
use cherios.Base.{
  ℕ, ◌+◌, ◌-◌, ◌^◌, Bool, true, false, not, ◌&&◌, ◌||◌, update, Option, none, some, Res, ok, halt,
  assertion, overrun, assert, ◌>>=◌, ◌>>◌, ◌==◌, leb, ltb, if◌then◌else◌, two_32,
}

abbrev pub max_socket : ℕ
max_socket = 0x10

abbrev pub max_port : ℕ
max_port = 0x10

-- -1 and its neighbours
abbrev pub minus : ℕ → ℕ
minus n = two_32 - n

abbrev pub is_negative : ℕ → Bool
is_negative n = leb (2 ^ 31) n

-- `a > b` for an `int` and a small constant
abbrev pub exceeds : ℕ → ℕ → Bool
exceeds a b = not (is_negative a) && ltb b a

-- `socket_t`
pub record Socket (Msg : Type 0) : Type 0 where
  pub status : ℕ
  pub oid : ℕ
  pub socksend : ℕ
  pub msg : Option Msg

pub record Net (Msg : Type 0) : Type 0 where
  pub ports : ℕ → ℕ
  pub sockets : ℕ → Socket Msg
  pub next_socket : ℕ

-- `assert(obj != NULL)`, and the number behind it
abbrev pub owner : Option ℕ → Res ℕ
owner none = halt assertion
owner (some oid) = ok oid

abbrev pub is_null_msg {ℓ} : {Msg : Type ℓ} → Option Msg → Bool
is_null_msg none = true
is_null_msg (some m) = false

module _ {Msg : Type 0} where
  -- The two arrays have 17 entries.
  unfoldable pub socket_at : Net Msg → ℕ → Res (Socket Msg)
  socket_at n i = if leb i max_socket then ok (n.sockets i) else halt overrun

  unfoldable pub port_at : Net Msg → ℕ → Res ℕ
  port_at n i = if leb i max_port then ok (n.ports i) else halt overrun

  abbrev pub set_socket : Net Msg → ℕ → Socket Msg → Net Msg
  set_socket n i s = record n { sockets = update n.sockets i s }

  unfoldable pub socket_init : Net Msg → Net Msg
  socket_init n = record n {
    ports = λ i. minus 1;
    sockets = λ i. record { status = 0; oid = 0; socksend = 0; msg = none };
  }

  unfoldable pub socket : Net Msg → Option ℕ → Res (ℕ × Net Msg)
  socket n cookie = do
    oid ← owner cookie
    assert (leb n.next_socket max_socket)
    assert ((n.sockets n.next_socket).status == 0)
    let s = record (n.sockets n.next_socket) {
      status = 1;
      oid = oid;
      socksend = minus 1;
      msg = none;
    }
    ok (n.next_socket, record (set_socket n n.next_socket s) { next_socket = n.next_socket + 1 })

  -- `socket > MAX_SOCKET || sockets[socket].status == 0`
  unfoldable pub is_closed : Net Msg → ℕ → Res Bool
  unfolding socket_at
  is_closed n s =
      if exceeds s max_socket then ok true else (do entry ← socket_at n s; ok (entry.status == 0))

  unfoldable pub bind : Net Msg → ℕ → ℕ → Res (ℕ × Net Msg)
  unfolding is_closed port_at
  bind n s port = do
    closed ← is_closed n s
    if closed then ok (minus 1, n) else do
      old ← port_at n port
      if not (is_negative old)
          then ok (minus 1, n)
          else ok (0, record n { ports = update n.ports port s })

  -- The entry that a port names, `none` if there is none.
  unfoldable pub port_socket : Net Msg → ℕ → Res (Option ℕ)
  unfolding port_at
  port_socket n port =
      if exceeds port max_port
      then ok none
      else (do s ← port_at n port; ok (if is_negative s then none else some s))

  unfoldable pub link : Net Msg → ℕ → ℕ → Res (ℕ × Net Msg)
  unfolding socket_at
  link n s csocket = do
    entry ← socket_at n csocket
    if (entry.status == 0) || not (is_negative entry.socksend) then ok (minus 1, n) else do
      let n1 = set_socket n csocket (record entry { socksend = s })
      ok (0, set_socket n1 s (record (n1.sockets s) { socksend = csocket }))

  unfoldable pub link_port : Net Msg → ℕ → Option ℕ → Res (ℕ × Net Msg)
  unfolding link
  link_port n s none = ok (minus 1, n)
  link_port n s (some csocket) = link n s csocket

  unfoldable pub connect : Net Msg → ℕ → ℕ → Res (ℕ × Net Msg)
  unfolding is_closed port_socket link_port
  connect n s port = do
    closed ← is_closed n s
    if closed then ok (minus 1, n) else do found ← port_socket n port; link_port n s found

  unfoldable pub recfrom : Net Msg → Option ℕ → ℕ → Res (Option Msg × Net Msg)
  unfolding is_closed
  recfrom n cookie s = do
    closed ← is_closed n s
    if closed then ok (none, n) else do
      oid ← owner cookie
      let entry = n.sockets s
      if entry.oid == oid
          then ok (entry.msg, set_socket n s (record entry { msg = none }))
          else ok (none, n)

  -- From `get_curr_cookie` on; `peer` is `socksend`.
  unfoldable pub send_peer : Net Msg → Option ℕ → ℕ → ℕ → Option Msg → Res (ℕ × Net Msg)
  unfolding socket_at
  send_peer n cookie s peer m = do
    oid ← owner cookie
    entry ← socket_at n peer
    if ((n.sockets s).oid == oid) && is_null_msg entry.msg
        then ok (0, set_socket n peer (record entry { msg = m }))
        else ok (minus 1, n)

  unfoldable pub sendto : Net Msg → Option ℕ → ℕ → Option Msg → Res (ℕ × Net Msg)
  unfolding send_peer socket_at
  sendto n cookie s m = if exceeds s max_socket then ok (minus 2, n) else (do
    entry ← socket_at n s
    if entry.status == 0
        then ok (minus 3, n)
        else (if is_negative entry.socksend
            then ok (minus 4, n)
            else send_peer n cookie s entry.socksend m))
