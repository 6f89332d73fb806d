-- ===== src/Kernel/Ccall/Answer.antt =====
-- CReturn of kernel/src/ccall.c as a whole, with any token.
use cherios.Base.{◌<◌, ◌≡◌, true, none, Bool-cases, Option-cases, inl, inr, halt, trap, ◌==◌, arith}
use cherios.Cheri.{Cheri}
use cherios.Kernel.State.{Kernel, is_sync_block, sched_status_of, current}
use cherios.Kernel.Inv.{IsRunning, Contained, Resumes-Contained}
use cherios.Kernel.Env.{kernel_unseal, otype_sync}
use cherios.Kernel.Act.{kernel_skip_instr}
use cherios.Kernel.Act.Wait.{act_wait-Resumes}
use cherios.Kernel.Ccall.{token_unique, creturn_reply, kernel_creturn}
use cherios.Kernel.Ccall.Deliver.{reframed-IsRunning}
use cherios.Kernel.Ccall.Reply.{Opens, caller, expected, creturn-unexpected, creturn-IsReply}

module _ (c : Cheri) where
  open c use {Cap}

  -- A token whose number is expected is that of a registered activation which is blocked in the
  -- call: no token is used a second time.
  abbrev pub IsFresh : Kernel Cap → Cap → Type 0
  IsFresh k sealed =
      (p : Cap)
      → Opens c k sealed p
      → expected c k sealed p ≡ token_unique (c.get_offset p)
      → (is_sync_block (sched_status_of k (caller c k sealed p)) ≡ true)
        × (0 < caller c k sealed p)
        × (caller c k sealed p < k.next_act)

  creturn-trap :
      (k : Kernel Cap) (sealed : Cap)
      → c.unseal sealed (c.set_offset c.get_default otype_sync) ≡ none
      → creturn_reply c k sealed ≡ halt trap
  unfolding creturn_reply kernel_unseal
  creturn-trap k sealed e = ground arith

  opened-Contained :
      (k : Kernel Cap) (sealed p : Cap)
      → IsRunning k
      → IsFresh k sealed
      → Opens c k sealed p
      → Contained (creturn_reply c k sealed)
  opened-Contained k sealed p v fresh e =
      elim (Bool-cases (expected c k sealed p == token_unique (c.get_offset p))) [
        | inr other ↦ rw (creturn-unexpected c k sealed p e (ground arith)) tt
        | inl same ↦
            let (blocked, pos, lt) = fresh p e (ground arith) in
            let (r, done, reply) = creturn-IsReply c k sealed p e v (ground arith) blocked pos lt in
            rw done reply.running
      ]

  reply-Contained :
      (k : Kernel Cap) (sealed : Cap)
      → IsRunning k
      → IsFresh k sealed
      → Contained (creturn_reply c k sealed)
  reply-Contained k sealed v fresh =
      elim (Option-cases (c.unseal sealed (c.set_offset c.get_default otype_sync))) [
        | inl bad ↦ rw (creturn-trap k sealed bad) tt
        | inr (p, e) ↦ opened-Contained k sealed p v fresh e
      ]

  -- A CReturn in a running kernel leaves an activation running in a sound kernel, or ends in a
  -- panic or a trap, provided that its token has not been used before.
  pub kernel_creturn-Contained :
      (k : Kernel Cap) → IsRunning k → IsFresh k (current k).c1 → Contained (kernel_creturn c k)
  unfolding kernel_creturn kernel_skip_instr
  kernel_creturn-Contained k v fresh =
      let k1 = kernel_skip_instr c k k.curr_act in
      let v1 : IsRunning k1 = reframed-IsRunning k k1.frames v in
      let same : (current k1).c1 ≡ (current k).c1 = ground arith in
      elim (Bool-cases (c.is_null (current k).c1)) [
        | inl no_token ↦
            rw (same, no_token)
              (Resumes-Contained _ (act_wait-Resumes k1 k1.curr_act k1.curr_act v1.sound v1.runs))
        | inr token ↦ rw (same, token) (reply-Contained k1 (current k).c1 v1 fresh)
      ]
