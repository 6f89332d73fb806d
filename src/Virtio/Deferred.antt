-- ===== src/Virtio/Deferred.antt =====
-- A request of the block driver from the client's call to the device's interrupt: the driver takes
-- the call's token away and answers it later.
use cherios.Base.{ℕ}
use cherios.Cheri.{Cheri}
use cherios.Kernel.State.{Kernel}
use cherios.Virtio.{Driver}
use cherios.Virtio.Requests.{waiting_for}
use cherios.Virtio.Service.{Host}

module _ (c : Cheri) (h : Host c.Cap) where
  open c use {Cap}

  -- The driver's state when it works for a client.
  abbrev pub for_client : Driver Cap → Cap → Driver Cap
  for_client d t = record d { sync_token = t }

  abbrev pub reading : Driver Cap → Cap → Cap → Cap → ℕ → Driver Cap
  reading d t id buf sector =
      waiting_for h.headers c.null (for_client d t) (h.session_of id) 0 3 (h.address buf) sector
