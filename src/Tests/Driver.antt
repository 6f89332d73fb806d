-- ===== src/Tests/Driver.antt =====
-- The block driver, with a device that answers at once.
use cherios.Base.{List, ℕ, ◌≡◌, refl, ◌∷◌, [], true, false, ok, ◌==◌, if◌then◌else◌, arith}
use cherios.Virtio.{Session, Driver, Device, Headers, Rings, vblk_rw, vblk_interrupt}
use cherios.Virtio.Lifetime.{IsWorking, Request, HasServed, Served, serve_all-Served}
use cherios.Virtio.Requests.{Works, IsIdle, IsDone, IsServed, waiting_for, vblk_rw-IsServed}

abbrev idle_session : Session ℕ
idle_session = record {
  init = 1;
  req_nb = 1;
  reqs_null = false;
  reqs = λ i. record { used = 0; sync_token = 0; type = 0; sector = 0 };
  num = 3;
  desc = λ i. record { addr = 0; len = 0; flags = 0; next = 0 };
  avail_idx = 0;
  avail_ring = λ i. 0;
  last_used_idx = 0;
}

-- Client 77 calls session 1.
abbrev driver : Driver ℕ
driver = record {
  sessions = λ i. idle_session;
  session = 0;
  expected_session = 0;
  expected_i = 0;
  sync_token = 77;
  writes = [];
  irq_enabled = true;
}

abbrev pub headers : Headers
headers = record {
  outhdr_at = λ i. 0x1000;
  inhdr_at = λ i. 0x1010;
  outhdr_size = 16;
  inhdr_size = 1;
}

-- The interrupt is pending if the last write has been the notification.
abbrev pub device : Device
device = record {
  read = λ writes offset.
      if offset == 0x60
      then elim writes as (λ _. ℕ) [ [] ↦ 0 | w ∷ ws ↦ (if w.0 == 0x50 then 1 else 0) ]
      else 0;
  used_id = λ slot. 0;
  used_len = λ slot. 1;
  req_status = λ i. 0;
}

driver-Works : Works device driver
driver-Works = refl

driver-IsIdle : IsIdle (driver.sessions 1)
driver-IsIdle = record { one_slot = refl; has_reqs = refl; is_free = refl; room = omega arith }

abbrev waits : Driver ℕ
waits = waiting_for headers 0 driver 1 0 3 0x8000 12

device-IsDone : IsDone device waits.writes 0
device-IsDone = record { id = refl; len = omega arith; good = refl; raised = refl; lowered = refl }

-- A read of sector 12
vblk_rw-IsServed_example :
    (ends : Driver ℕ) × (vblk_rw device headers 0 driver 1 0 3 0x8000 12 ≡ ok (0, waits))
    × (vblk_interrupt device waits ≡ ok (0, ends))
    × IsServed headers 0 driver waits ends 1
vblk_rw-IsServed_example =
    vblk_rw-IsServed headers 0 device device driver 1 0 3 0x8000 12 driver-Works driver-IsIdle
      device-IsDone

-- After four requests
abbrev worn : Driver ℕ
worn = record driver { sessions = λ i. record idle_session { avail_idx = 4 } }

-- The device of the emulator
abbrev emulated : Device
emulated = record {
  read = λ writes offset.
      if offset == 0
      then 0x74726976
      else (if offset == 4
          then 1
          else (if offset == 8
              then 2
              else (if offset == 0xc then 0x554d4551 else (if offset == 0x34 then 1024 else 0))));
  used_id = λ slot. 0;
  used_len = λ slot. 1;
  req_status = λ i. 0;
}

abbrev ring_addresses : Rings
ring_addresses = record { desc_at = 0x1000; avail_at = 0x2000; used_at = 0x3000 }

device-IsWorking : IsWorking device
device-IsWorking = record {
  works = λ writes. refl;
  id = λ slot. refl;
  len = λ slot. omega arith;
  good = refl;
  raised = λ writes. refl;
  lowered = λ writes. refl;
}

new-HasServed : HasServed device headers 0 1 0 driver
new-HasServed = record {
  one_slot = refl;
  has_reqs = refl;
  is_free = refl;
  num = refl;
  index = refl;
}

-- Five reads
abbrev reads : List (Request ℕ)
reads =
    let r : Request ℕ = record { token = 77; type = 0; flags = 3; buf = 0x8000; sector = 12 } in
    r ∷ r ∷ r ∷ r ∷ r ∷ []

serve_all-Served_example : Served device headers 0 1 0 driver reads
serve_all-Served_example =
    serve_all-Served device headers 0 1 0 driver reads device-IsWorking new-HasServed (omega arith)
