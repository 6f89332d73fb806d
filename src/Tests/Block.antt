-- ===== src/Tests/Block.antt =====
-- A client of the block driver on the demonstration kernel: activation 1 calls activation 3.
use cherios.Base.{ℕ, ◌+◌, ◌-◌, true, false, [], none, ◌==◌, if◌then◌else◌, two_64}
use cherios.Kernel.State.{Kernel, SchedStatus, runnable, sync_block, terminated}
use cherios.Virtio.{Session, Driver}
use cherios.Virtio.Service.{Host}
use cherios.Virtio.Deferred.{reading}
use cherios.Tests.Toy.{Toy, toy, toy_null, toy_default, demo, demo_act, demo_frame}
use cherios.Tests.Driver.{headers}
use cherios.Tests.Clients.{new_token}

-- Activation 1 is blocked in its call, activation 2 may run, and activation 3, the driver, runs
-- with the message of an interrupt.
abbrev later_status : ℕ → SchedStatus
later_status a =
    if a == 1
    then sync_block
    else (if a == 2
        then runnable
        else (if a == 3 then runnable else (if a == 4 then sync_block else terminated)))

abbrev later_kernel : Kernel Toy
later_kernel = record demo {
  acts = λ a. record (demo_act a) { sched_status = later_status a };
  frames = λ a. record demo_frame { v0 = two_64 - 3; c1 = toy_null };
  framep = 3;
  aqueue = λ a. a - 2;
  squeue_a = λ i. i + 2;
  curr_act = 3;
  unique = 9;
}

abbrev idle : Session Toy
idle = record {
  init = 1;
  req_nb = 1;
  reqs_null = false;
  reqs = λ i. record { used = 0; sync_token = toy_null; type = 0; sector = 0 };
  num = 3;
  desc = λ i. record { addr = 0; len = 0; flags = 0; next = 0 };
  avail_idx = 0;
  avail_ring = λ i. 0;
  last_used_idx = 0;
}

abbrev driver : Driver Toy
driver = record {
  sessions = λ i. idle;
  session = 0;
  expected_session = 0;
  expected_i = 0;
  sync_token = toy_null;
  writes = [];
  irq_enabled = true;
}

abbrev host : Host Toy
host = record {
  session_of = λ p. 1;
  address = λ p. p.base + p.offset;
  malloc = λ d. none;
  seal_id = λ i. toy_null;
  reqs_null = false;
  rings = none;
  headers = headers;
  capacity = λ writes. 1024;
}

abbrev asked : Driver Toy
asked = reading toy host driver new_token toy_default toy_default 12
