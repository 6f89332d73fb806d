-- ===== src/Tests/Messages.antt =====
-- A message over the sockets on the demonstration kernel: activation 3 is their service.
use cherios.Base.{◌+◌, ◌*◌, ◌≡◌, inl, update, refl, some, none, ok, arith, ◌==◌, ltb, if◌then◌else◌}
use cherios.Kernel.State.{Kernel, current, set_current}
use cherios.Libuser.Server.{exchange}
use cherios.Sockets.{Net, minus, recfrom, is_closed, socket_at}
use cherios.Sockets.Client
use cherios.Sockets.Links.{IsLinked, with_msg}
use cherios.Sockets.Waiting.{Run, ends, then_serve, receives, serve}
use cherios.Sockets.Service.{Variables, Host, socket_methods, new_identifier}
use cherios.Sockets.Passing.{with_net, sendto-recfrom_served}
use cherios.Tests.Clients.{call_of, frame_of, ns_three, id_three, bare_token, new_token}
use cherios.Tests.Toy.{Toy, toy, toy_null, toy_default, toy_Laws, table_at, demo, sealed_cap}

-- Sockets 0 and 1 are linked; their owner is 70.
abbrev net : Net Toy
net = record {
  ports = λ p. if p == 3 then 0 else minus 1;
  sockets = λ i. record {
    status = if ltb i 2 then 1 else 0;
    oid = 70;
    socksend = if i == 0 then 1 else 0;
    msg = none;
  };
  next_socket = 2;
}

net-IsLinked : IsLinked net
net-IsLinked = record {
  room = omega arith;
  fresh = λ i h. ground arith;
  peers = λ i h. ground arith;
  bound = λ p. ground arith;
}

abbrev variables : Variables Toy
variables = record { net = net; oid = 71; cells = λ i. 70 + i }

-- A cell's address is 4 bytes past the one before.
abbrev host : Host Toy
host = record {
  malloc = λ s. some 1;
  seal_id = λ i. sealed_cap 3 (4 * i);
  cell_of = λ p. if p.tag then some 0 else none;
}

-- The program is given number 71, and the next one another.
identifies :
    new_identifier toy host (current demo) (record { own = variables; sync_token = toy_null })
    ≡ ok (
      record (current demo) { c3 = sealed_cap 3 4 },
      record {
        own = record variables { oid = 72; cells = update variables.cells 1 71 };
        sync_token = toy_null;
      },
    )
unfolding new_identifier
identifies = refl

abbrev letter : Toy
letter = sealed_cap 7 0

abbrev sent : Variables Toy
sent = with_net toy host variables (with_msg net 1 (some letter))

-- Someone else asks for the message first.
tries : serve sent.net (some 71) (receives 1) ≡ ok sent.net
unfolding serve recfrom is_closed socket_at
tries = refl

tried : Run 1 70 letter sent.net sent.net
tried = then_serve sent.net sent.net (some 71) (receives 1) ends (inl (λ e. ground arith)) tries

sendto-recfrom_served_example :
    let received = with_net toy host sent (with_msg sent.net 1 none) in
    (k2 : Kernel Toy) × (k3 : Kernel Toy) × (exchange toy table_at
        (socket_methods toy host)
        (set_current demo (frame_of 4 0 letter toy_null))
        (record { own = variables; sync_token = toy_null })
      ≡ ok (k2, record { own = sent; sync_token = new_token }))
    × ((Client.sendto toy (current demo) ns_three id_three 0 letter).returns (current k2) ≡ 0)
    × (exchange toy table_at
          (socket_methods toy host)
          (set_current demo (frame_of 3 1 toy_null toy_null))
          (record { own = sent; sync_token = new_token })
        ≡ ok (k3, record { own = received; sync_token = new_token }))
    × ((Client.recfrom toy (current demo) ns_three id_three 1).returns (current k3) ≡ letter)
sendto-recfrom_served_example =
    sendto-recfrom_served toy toy_Laws table_at host demo demo ns_three id_three letter ns_three
      id_three (frame_of 4 0 letter toy_null) (frame_of 3 1 toy_null toy_null) 3 3 toy_default
      bare_token new_token toy_null toy_default bare_token new_token new_token variables sent 0 refl
      net-IsLinked (λ e. cc) (λ e. cc) refl refl tried refl (call_of 4 0 letter toy_null)
      (call_of 3 1 toy_null toy_null)
