-- ===== src/Kernel/Ccall/Reply.antt =====
-- CReturn: the synchronous token, and what a reply does.
use cherios.Base.{
  ℕ, ◌^◌, ◌≤◌, ◌<◌, ◌≡◌, refl, subst, ◌≢◌, true, false, some, ok, halt, panic, assertion, arith,
  two_32,
}
use cherios.Cheri.{Cheri}
use cherios.Kernel.State.{Kernel, runnable, is_runnable, is_sync_block, sched_status_of, current}
use cherios.Kernel.Ready.{sched_d2a}
use cherios.Kernel.Ready.Inv.{entered, d2a-eq, entered-IsReady}
use cherios.Kernel.Inv.{IsSound, IsRunning, Resumes, agree, Agree-IsSound}
use cherios.Kernel.Act.{act_wait}
use cherios.Kernel.Act.Wait.{parked, act_wait-hint, act_wait-Resumes}
use cherios.Kernel.Env.{otype_sync}
use cherios.Kernel.Ccall.{token_offset, token_caller, token_unique, give_reply, creturn_reply}

-- The token of a synchronous call gives back the caller, and the counter below 2^28.
pub token-roundtrip :
    (ccaller unique : ℕ)
    → ccaller < two_32
    → unique < 2 ^ 28
    → (token_caller (token_offset ccaller unique) ≡ ccaller)
      × (token_unique (token_offset ccaller unique) ≡ unique)
unfolding token_offset token_caller token_unique
token-roundtrip ccaller unique h g = omega arith

-- From the counter 2^28 on, the mask cuts it off.
pub token_unique-late :
    (ccaller unique : ℕ) → 2 ^ 28 ≤ unique → token_unique (token_offset ccaller unique) ≢ unique
unfolding token_offset token_unique
token_unique-late ccaller unique h = omega arith

module _ {Cap : Type 0} where
  -- A blocked caller that becomes runnable again.
  unblocked-IsSound :
      (k : Kernel Cap) (a : ℕ)
      → IsSound k
      → is_sync_block (sched_status_of k a) ≡ true
      → 0 < a
      → a < k.next_act
      → IsSound (entered k a runnable)
  unblocked-IsSound k a v b pos lt = record {
    ready = entered-IsReady a runnable v.ready (ground arith) refl pos lt;
    mail = record {
      rings = λ i h. ground (arith, v.mail.rings i h);
      quiet = λ i h. ground (arith, v.mail.quiet i);
      held = λ i h. ground (arith, v.mail.held i);
    };
    wired = λ i h. ground (arith, v.wired i);
  }

module _ (c : Cheri) (k : Kernel c.Cap) (sealed p : c.Cap) where
  open c use {Cap}

  -- The token unseals to `p`.
  abbrev pub Opens : Type 0
  Opens = c.unseal sealed (c.set_offset c.get_default otype_sync) ≡ some p

  abbrev pub caller : ℕ
  caller = token_caller (c.get_offset p)

  abbrev pub expected : ℕ
  expected = (k.acts caller).expected_reply

  -- A reply that is not the expected one stops the machine.
  pub creturn-unexpected :
      Opens → expected ≢ token_unique (c.get_offset p) → creturn_reply c k sealed ≡ halt panic
  unfolding creturn_reply
  creturn-unexpected e ne = ground arith

  -- A token with the expected number whose caller is not blocked (any more) fails an assertion.
  pub creturn-replayed :
      Opens
      → expected ≡ token_unique (c.get_offset p)
      → is_sync_block (sched_status_of k caller) ≡ false
      → creturn_reply c k sealed ≡ halt assertion
  unfolding creturn_reply
  creturn-replayed e m b = ground arith

  -- The kernel that the caller resumes in.
  abbrev pub replied : Kernel Cap
  replied = record (parked (give_reply c (entered k caller runnable) caller) k.curr_act) {
    curr_act = caller;
    framep = caller;
  }

  -- The state in which the callee gives up the processor.
  abbrev handing : Kernel Cap
  handing = give_reply c (entered k caller runnable) caller

  handing-IsSound :
      IsSound k
      → is_sync_block (sched_status_of k caller) ≡ true
      → 0 < caller
      → caller < k.next_act
      → IsSound handing
  unfolding give_reply
  handing-IsSound v b pos lt =
      Agree-IsSound (agree (entered k caller runnable)) (unblocked-IsSound k caller v b pos lt)

  handing-wait :
      IsRunning k
      → is_sync_block (sched_status_of k caller) ≡ true
      → IsSound handing
      → (act_wait handing k.curr_act caller ≡ ok replied) × IsRunning replied
  unfolding give_reply
  handing-wait v b sound =
      let runs : is_runnable (sched_status_of handing k.curr_act) ≡ true = ground arith in
      let wait : act_wait handing k.curr_act caller ≡ ok replied =
        act_wait-hint handing k.curr_act caller sound runs (ground arith) (ground arith) in
      (wait, subst Resumes wait (act_wait-Resumes handing k.curr_act caller sound runs))

  creturn-eq :
      Opens
      → IsRunning k
      → expected ≡ token_unique (c.get_offset p)
      → is_sync_block (sched_status_of k caller) ≡ true
      → IsSound handing
      → creturn_reply c k sealed ≡ ok replied
  unfolding creturn_reply
  creturn-eq e v m b sound =
      let wake : sched_d2a k caller runnable ≡ ok (entered k caller runnable) =
        d2a-eq k caller runnable v.sound.ready refl in
      ground (arith, e, wake, handing-wait v b sound)

  -- The caller runs again with the callee's results in its registers.
  pub record IsReply (r : Kernel Cap) : Type 0 where
    pub running : IsRunning r
    pub switched : r.curr_act ≡ caller
    pub v0 : (current r).v0 ≡ (current k).v0
    pub v1 : (current r).v1 ≡ (current k).v1
    pub c3 : (current r).c3 ≡ (current k).c3

  -- The reply to a blocked caller's outstanding synchronous call, in a running kernel:
  -- `kernel_creturn`, from the unsealing of the token on, copies the results into the caller's
  -- registers and switches to it, and the kernel is sound.
  pub creturn-IsReply :
      Opens
      → IsRunning k
      → expected ≡ token_unique (c.get_offset p)
      → is_sync_block (sched_status_of k caller) ≡ true
      → 0 < caller
      → caller < k.next_act
      → (r : Kernel Cap) × (creturn_reply c k sealed ≡ ok r) × IsReply r
  unfolding give_reply
  creturn-IsReply e v m b pos lt =
      let sound : IsSound handing = handing-IsSound v.sound b pos lt in
      (
        replied,
        creturn-eq e v m b sound,
        record {
          running = (handing-wait v b sound).1;
          switched = refl;
          v0 = ground (arith, v.framed);
          v1 = ground (arith, v.framed);
          c3 = ground (arith, v.framed);
        },
      )
