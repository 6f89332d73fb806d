-- ===== src/Sockets/Links.antt =====
-- Messages reach the connected socket once, and links stay inside the table.
use cherios.Base.{
  ℕ, ◌+◌, ◌≤◌, ◌<◌, ◌≡◌, ◌≢◌, refl, true, false, ◌⊎◌, Option, none, some, ok, halt, overrun, arith,
}
use cherios.Sockets.{
  Net, max_socket, max_port, minus, is_negative, socket_at, port_at, set_socket, socket, is_closed,
  bind, recfrom, send_peer, sendto,
}

module _ {Msg : Type 0} where
  -- Sockets in use lie below `next_socket`, and ports and peers name such sockets.
  pub record IsLinked (n : Net Msg) : Type 0 where
    pub room : n.next_socket ≤ max_socket + 1
    pub fresh : (i : ℕ) → n.next_socket ≤ i → (n.sockets i).status ≡ 0
    pub peers :
        (i : ℕ)
        → (n.sockets i).status ≢ 0
        → (is_negative (n.sockets i).socksend ≡ true) ⊎ ((n.sockets i).socksend < n.next_socket)
    pub bound : (p : ℕ) → (is_negative (n.ports p) ≡ true) ⊎ (n.ports p < n.next_socket)

  -- The table after `socket`.
  abbrev pub opened : Net Msg → ℕ → Net Msg
  opened n oid =
      record (set_socket n n.next_socket
        (record { status = 1; oid = oid; socksend = minus 1; msg = none })) {
          next_socket = n.next_socket + 1;
        }

  -- `socket` hands out the next number while there is one, and the links stay inside the table.
  pub socket-IsLinked :
      (n : Net Msg) (oid : ℕ)
      → IsLinked n
      → n.next_socket ≤ max_socket
      → (socket n (some oid) ≡ ok (n.next_socket, opened n oid)) × IsLinked (opened n oid)
  unfolding socket
  socket-IsLinked n oid v h = (
    ground (arith, v.fresh n.next_socket),
    record {
      room = omega arith;
      fresh = λ i j. ground (arith, v.fresh i);
      peers = λ i j. ground (arith, v.peers i);
      bound = λ p. ground (arith, v.bound p);
    },
  )

  -- A port number past the table passes the checks of `bind` and is written out of bounds.
  pub bind-overrun :
      (n : Net Msg) (s port : ℕ)
      → is_closed n s ≡ ok false
      → max_port < port
      → bind n s port ≡ halt overrun
  unfolding bind port_at
  bind-overrun n s port open_socket h = rw open_socket (ground arith)

  -- The table with message `m` for socket `peer`, and without one.
  abbrev pub with_msg : Net Msg → ℕ → Option Msg → Net Msg
  with_msg n peer m = set_socket n peer (record (n.sockets peer) { msg = m })

  -- The owner of an open socket takes the message that waits there.
  recfrom-eq :
      (n : Net Msg) (oid s : ℕ) (m : Option Msg)
      → s ≤ max_socket
      → (n.sockets s).status ≢ 0
      → (n.sockets s).oid ≡ oid
      → let sent = with_msg n s m in recfrom sent (some oid) s ≡ ok (m, with_msg sent s none)
  unfolding recfrom socket_at is_closed
  recfrom-eq n oid s m low on own = ground arith

  sendto-eq :
      (n : Net Msg) (oid s : ℕ) (m : Msg)
      → let peer = (n.sockets s).socksend in
        s ≤ max_socket
        → peer ≤ max_socket
        → (n.sockets s).status ≢ 0
        → (n.sockets s).oid ≡ oid
        → (n.sockets peer).msg ≡ none
        → sendto n (some oid) s (some m) ≡ ok (0, with_msg n peer (some m))
  unfolding sendto send_peer socket_at
  sendto-eq n oid s m low peer_low on own quiet = ground arith

  -- An open socket has a number in the table.
  pub IsLinked-low : (n : Net Msg) (s : ℕ) → IsLinked n → (n.sockets s).status ≢ 0 → s ≤ max_socket
  IsLinked-low n s v on = ground (arith, v.fresh s, v.room)

  -- A message that is sent over a link to a socket with no message waits there; its owner
  -- receives it once, and nothing the second time.
  pub sendto-recfrom :
      (n : Net Msg) (s : ℕ) (m : Msg)
      → IsLinked n
      → (n.sockets s).status ≢ 0
      → let peer = (n.sockets s).socksend in
        (n.sockets peer).status ≢ 0
        → (n.sockets peer).msg ≡ none
        → let sent = with_msg n peer (some m) in
          let received = with_msg sent peer none in
          let receiver = some (n.sockets peer).oid in
          (sendto n (some (n.sockets s).oid) s (some m) ≡ ok (0, sent))
          × (recfrom sent receiver peer ≡ ok (some m, received))
          × (recfrom received receiver peer ≡ ok (none, with_msg received peer none))
  sendto-recfrom n s m v on peer_on quiet =
      let low = IsLinked-low n s v on in
      let peer = (n.sockets s).socksend in
      let peer_low = IsLinked-low n peer v peer_on in
      let sent = with_msg n peer (some m) in
      (
        sendto-eq n (n.sockets s).oid s m low peer_low on refl quiet,
        recfrom-eq n (n.sockets peer).oid peer (some m) peer_low peer_on refl,
        recfrom-eq sent (n.sockets peer).oid peer none peer_low (ground arith) (ground arith),
      )
