-- ===== src/Tests/Services.antt =====
-- The name server, init's allocator and the sockets, on small tables.
use cherios.Base.{
  false, none, ℕ, ◌+◌, ◌≡◌, ◌∷◌, [], refl, true, false, ok, arith, ◌==◌, ltb, if◌then◌else◌,
}
use cherios.Namespace.{
  ns_init, ns_register, ns_get_reference, ns_get_identifier, validate_idx, validate_act_caps,
  ns_register_core,
}
use cherios.Namespace.Ports.{register_all, register-stands}
use cherios.Boot.Alloc.{Pool}
use cherios.Sockets.{Net, minus, is_closed, socket_at}
use cherios.Sockets.Links.{IsLinked}
use cherios.Tests.Toy.{Toy, toy, toy_default, sealed_cap}

-- A service registers port 5, and another one tries to after it.
abbrev ours : Toy
ours = sealed_cap 7 0

abbrev theirs : Toy
theirs = sealed_cap 8 0

registers_five : (ns_register toy (ns_init toy) 5 ours ours).0 ≡ 0
unfolding ns_register validate_idx validate_act_caps ns_register_core ns_init
registers_five = refl

register-stands_example :
    let later =
      register_all toy (ns_register toy (ns_init toy) 5 ours ours).1 ((5, theirs, theirs) ∷ []) in
    (ns_get_reference toy later 5 ≡ ours)
    × (ns_get_identifier toy later 5 ≡ ours)
    × (toy.get_type ours ≡ toy.get_type ours)
    × (toy.get_sealed ours ≡ true)
    × (toy.get_sealed ours ≡ true)
register-stands_example =
    register-stands toy (ns_init toy) 5 ours ours ((5, theirs, theirs) ∷ []) refl registers_five

abbrev pool : Pool Toy
pool = record {
  pool_start = record toy_default { base = 0x2000; len = 163840 };
  pool_next = 0x2000;
  pool_end = 0x2000 + 163840;
  system_alloc = false;
}

-- A page, with bounds of two pages
abbrev bounded : Toy
bounded = record toy_default { base = 0x2000; len = 8192 }

-- The array that becomes the pool
abbrev array : Toy
array = record toy_default { base = 0x2000; len = 163840 }

-- Sockets 0 and 1, of owners 70 and 71, are linked.
abbrev net : Net ℕ
net = record {
  ports = λ p. if p == 3 then 0 else minus 1;
  sockets = λ i. record {
    status = if ltb i 2 then 1 else 0;
    oid = 70 + i;
    socksend = if i == 0 then 1 else 0;
    msg = none;
  };
  next_socket = 2;
}

net-IsLinked : IsLinked net
net-IsLinked = record {
  room = omega arith;
  fresh = λ i h. ground arith;
  peers = λ i h. ground arith;
  bound = λ p. ground arith;
}

zero_is_open : is_closed net 0 ≡ ok false
unfolding is_closed socket_at
zero_is_open = refl
