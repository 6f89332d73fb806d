-- ===== src/Sockets/Passing.antt =====
-- The sockets as their clients see them: prga/src/sockets.c and sockets/src over the kernel.
use cherios.Base.{ℕ, ◌<◌, ◌≡◌, ◌≢◌, refl, false, none, some, ok, arith, two_32}
use cherios.Cheri.{Cheri, Laws}
use cherios.Kernel.State.{Kernel, Frame, current, set_current}
use cherios.Kernel.Env.{Layout}
use cherios.Libuser.{ccall_r_c, ccall_rc_r}
use cherios.Libuser.Client.{Calls}
use cherios.Libuser.Server.{sign_extend, as_int, msg_entry, exchange}
use cherios.Libuser.Server.Served.{Serves, ccall_4-served}
use cherios.Namespace.Directory.{as_int-sign_extend}
use cherios.Sockets
use cherios.Sockets.{Net, max_socket}
use cherios.Sockets.Links.{IsLinked, with_msg, sendto-recfrom, IsLinked-low}
use cherios.Sockets.Waiting.{Run, Run-Holds, sent-Holds, recfrom-Holds}
use cherios.Sockets.Service.{Variables, Host, as_msg, cookie, socket_methods}
use cherios.Sockets.Client.{recfrom, sendto}

module _ (c : Cheri) (h : Host c.Cap) where
  open c use {Cap}

  abbrev pub with_net : Variables Cap → Net Cap → Variables Cap
  with_net s n = record s { net = n }

  sendto-Serves :
      (s : Variables Cap) (n : Net Cap) (id msg : Cap) (socket ret : ℕ)
      → socket < two_32
      → ret < two_32
      → Sockets.sendto s.net (cookie c h s id) socket (as_msg c msg) ≡ ok (ret, n)
      → Serves c
          (socket_methods c h)
          s
          (with_net s n)
          4
          (sign_extend socket)
          0
          0
          msg
          c.null
          c.null
          id
          (λ v. as_int v.0)
          ret
  unfolding msg_entry socket_methods
  sendto-Serves s n id msg socket ret low small done = record {
    result = λ f. record f { v0 = sign_extend ret };
    answers = λ f t passed same.
        rw (passed.method, passed.a0, passed.c3, same, as_int-sign_extend socket low, done) refl;
    token = λ f. refl;
    value = λ f passed. as_int-sign_extend ret small;
  }

  recfrom-Serves :
      (s : Variables Cap) (n : Net Cap) (id m : Cap) (socket : ℕ)
      → socket < two_32
      → Sockets.recfrom s.net (cookie c h s id) socket ≡ ok (some m, n)
      → Serves c
          (socket_methods c h)
          s
          (with_net s n)
          3
          (sign_extend socket)
          0
          0
          c.null
          c.null
          c.null
          id
          (λ v. v.1)
          m
  unfolding msg_entry socket_methods
  recfrom-Serves s n id m socket low done = record {
    result = λ f. record f { c3 = m };
    answers = λ f t passed same.
        rw (passed.method, passed.a0, same, as_int-sign_extend socket low, done) refl;
    token = λ f. refl;
    value = λ f passed. refl;
  }

module _ (c : Cheri) (laws : Laws c) (l : Layout) (h : Host c.Cap) where
  open c use {Cap}

  -- A message that a program sends over a link is what the program at the other end receives,
  -- whatever the service is asked in between: if the link's sockets are open, no message waits, and
  -- the identifiers by which the programs call point to the owners of the two sockets, then the
  -- sender's `sendto` gives 0, and after any requests that are no `recfrom` of the receiver's socket
  -- by its owner, the receiver's `recfrom` in a running kernel gives the message, after which none
  -- waits. The message is not NULL. Both calls find the service waiting, no capability instruction
  -- traps, and fewer than 2^28 calls have been made.
  pub sendto-recfrom_served :
      (k k' : Kernel Cap) (cb cs msg cb' cs' : Cap) (f0 f0' : Frame Cap) (target target' : ℕ)
      (id bare t last id' bare' t' last' : Cap) (s s2 : Variables Cap) (socket : ℕ)
      → c.is_null msg ≡ false
      → IsLinked s.net
      → (s.net.sockets socket).status ≢ 0
      → let peer = (s.net.sockets socket).socksend in
        let owner = (s.net.sockets peer).oid in
        let sent = with_net c h s (with_msg s.net peer (some msg)) in
        (s.net.sockets peer).status ≢ 0
        → (s.net.sockets peer).msg ≡ none
        → cookie c h s id ≡ some (s.net.sockets socket).oid
        → Run peer owner msg sent.net s2.net
        → cookie c h s2 id' ≡ some owner
        → Calls c laws l k cb cs 4 (sign_extend socket) 0 0 msg c.null c.null f0 target id bare t
        → Calls c laws l k' cb' cs' 3
            (sign_extend peer)
            0
            0
            c.null
            c.null
            c.null
            f0'
            target'
            id'
            bare'
            t'
        → let received = with_net c h s2 (with_msg s2.net peer none) in
          (k2 : Kernel Cap) × (k3 : Kernel Cap) × (exchange c l
              (socket_methods c h)
              (set_current k f0)
              (record { own = s; sync_token = last })
            ≡ ok (k2, record { own = sent; sync_token = t }))
          × ((sendto c (current k) cb cs socket msg).returns (current k2) ≡ 0)
          × (exchange c l
                (socket_methods c h)
                (set_current k' f0')
                (record { own = s2; sync_token = last' })
              ≡ ok (k3, record { own = received; sync_token = t' }))
          × ((recfrom c (current k') cb' cs' peer).returns (current k3) ≡ msg)
  unfolding sendto recfrom ccall_rc_r ccall_r_c
  sendto-recfrom_served k k' cb cs msg cb' cs' f0 f0' target target' id bare t last id' bare' t'
        last' s s2 socket live v on peer_on quiet owns run peer_owns calls calls' =
      let peer = (s.net.sockets socket).socksend in
      let owner = (s.net.sockets peer).oid in
      let low = IsLinked-low s.net socket v on in
      let peer_low = IsLinked-low s.net peer v peer_on in
      let sent = with_msg s.net peer (some msg) in
      let received = with_msg s2.net peer none in
      let (goes, _, _) = sendto-recfrom s.net socket msg v on peer_on quiet in
      let holds = Run-Holds peer owner msg sent s2.net (sent-Holds s.net peer msg peer_on) run in
      let comes = recfrom-Holds peer owner msg s2.net holds peer_low in
      let (k2, done, _, _, value) =
        ccall_4-served c laws l (socket_methods c h) k cb cs 4 (sign_extend socket) 0 0 msg c.null
          c.null f0 target id bare t last s (with_net c h s sent) (λ v. as_int v.0) 0 calls
          (sendto-Serves c h s sent id msg socket 0 (omega arith) (omega arith)
            (rw (owns, live) goes)) in
      let (k3, done', _, _, value') =
        ccall_4-served c laws l (socket_methods c h) k' cb' cs' 3 (sign_extend peer) 0 0 c.null
          c.null c.null f0' target' id' bare' t' last' s2 (with_net c h s2 received) (λ v. v.1) msg
          calls' (recfrom-Serves c h s2 received id' msg peer (omega arith) (rw peer_owns comes)) in
      (k2, k3, done, value, done', value')
