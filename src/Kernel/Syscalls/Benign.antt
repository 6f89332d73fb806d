-- ===== src/Kernel/Syscalls/Benign.antt =====
-- All system calls of kernel/src/syscalls.c in a running kernel.
use cherios.Base.{◌%◌, ◌^◌, ◌<◌, ◌≡◌, ◌≢◌, sym, ◌∙◌, Option, Res, ok, two_32, arith}
use cherios.Cheri.{Cheri, Laws}
use cherios.Kernel.State.{Kernel, Frame, current}
use cherios.Kernel.Inv.{IsRunning, Contained, bind-Contained}
use cherios.Kernel.Env.{Layout, Fits, Text, kernel_seal}
use cherios.Kernel.Act.{
  ctrl_aid, act_register, act_get_ref, act_get_id, act_get_status, act_seal_identifier,
  kernel_skip_instr,
}
use cherios.Kernel.Act.Life.{act_register-IsNew}
use cherios.Kernel.Ccall.Deliver.{reframed-IsRunning}
use cherios.Kernel.Syscalls.{
  UserMemory, Syscall, sleep, act_register_call, get_ref, get_id, get_status, revoke, terminate,
  seal_identifier, puts, stop, interrupt_register, interrupt_enable, unknown, return_c3, keeping,
  syscall_of, dispatch, kernel_exception_syscall,
}
use cherios.Kernel.Syscalls.Effects.{
  Mild, bind-Mild, or_trap-Mild, return_v0-Contained, return_c3-Contained, keeping-Mild,
  kept-IsRunning, sleep-Contained,
}
use cherios.Kernel.Syscalls.Safe.{register-Contained, enable-Contained}
use cherios.Kernel.Syscalls.Dispatch.{Ends, terminate-Contained, revoke_by-Contained, register-Mild}

module _ (c : Cheri) (laws : Laws c) (l : Layout) (fits : Fits l) (u : UserMemory c) where
  open c use {Cap}

  -- What a call asks of its caller's registers: a name's length that is no negative `int`, control
  -- references that the kernel made, the end of an activation that is in the ready queue, and an
  -- interrupt number that the array has room for.
  abbrev pub Benign : Kernel Cap → Syscall → Type 0
  Benign k act_register_call = c.get_len (current k).c4 % two_32 < 2 ^ 31
  Benign k get_ref = Mild (ctrl_aid c l k (current k).c3)
  Benign k get_id = Mild (ctrl_aid c l k (current k).c3)
  Benign k get_status = Mild (ctrl_aid c l k (current k).c3)
  Benign k revoke = Mild (ctrl_aid c l k (current k).c3)
  Benign k terminate = Ends k (ctrl_aid c l k (current k).c3)
  Benign k interrupt_register = (current k).a0 % two_32 ≢ 7
  Benign k interrupt_enable = (current k).a0 % two_32 ≢ 7
  Benign k _ = Unit

  registered-IsRunning :
      (k : Kernel Cap) (frame : Option (Frame Cap)) (name : Text c) (ctrl : Cap) (k' : Kernel Cap)
      → IsRunning k
      → act_register c l k frame name ≡ ok (ctrl, k')
      → IsRunning k'
  registered-IsRunning k frame name ctrl k' v e =
      let new = act_register-IsNew c laws l fits k frame name ctrl k' v.sound e in
      let known = v.sound.ready.known k.curr_act (ground (arith, v.runs)) in
      let old : k.curr_act ≢ k.next_act = λ same. omega (arith, known, same) in
      record {
        sound = new.sound;
        framed = new.same_framep ∙ v.framed ∙ sym new.same_current;
        runs = rw (new.same_current, new.others k.curr_act old) v.runs;
      }

  get_ref-Mild :
      (k : Kernel Cap) (ctrl : Cap) → Mild (ctrl_aid c l k ctrl) → Mild (act_get_ref c l k ctrl)
  unfolding act_get_ref
  get_ref-Mild k ctrl m = bind-Mild (ctrl_aid c l k ctrl) _ m (λ aid. tt)

  get_id-Mild :
      (k : Kernel Cap) (ctrl : Cap) → Mild (ctrl_aid c l k ctrl) → Mild (act_get_id c l k ctrl)
  unfolding act_get_id
  get_id-Mild k ctrl m = bind-Mild (ctrl_aid c l k ctrl) _ m (λ aid. tt)

  get_status-Mild :
      (k : Kernel Cap) (ctrl : Cap) → Mild (ctrl_aid c l k ctrl) → Mild (act_get_status c l k ctrl)
  unfolding act_get_status
  get_status-Mild k ctrl m = bind-Mild (ctrl_aid c l k ctrl) _ m (λ aid. tt)

  seal-Mild : (k : Kernel Cap) (identifier : Cap) → Mild (act_seal_identifier c k identifier)
  unfolding act_seal_identifier kernel_seal
  seal-Mild k identifier = or_trap-Mild _

  -- A reference read out of the state, which stays as it is.
  read-Contained :
      (k : Kernel Cap) (r : Res Cap) → IsRunning k → Mild r → Contained (return_c3 (keeping k r))
  read-Contained k r v m =
      return_c3-Contained (keeping k r) (keeping-Mild k r m) (λ p k' e. kept-IsRunning k k' r p v e)

  dispatch-Contained :
      (k : Kernel Cap) (s : Syscall) → IsRunning k → Benign k s → Contained (dispatch c l u k s)
  unfolding dispatch
  dispatch-Contained k sleep v h = sleep-Contained k v
  dispatch-Contained k act_register_call v h =
      let f = current k in
      let name : Text c = record { cap = f.c4; char = u.char_at f.c4 } in
      return_c3-Contained (act_register c l k (u.frame_at f.c3) name)
        (register-Mild c l k (u.frame_at f.c3) name h)
        (λ p k' e. registered-IsRunning k (u.frame_at f.c3) name p k' v e)
  dispatch-Contained k get_ref v h = read-Contained k _ v (get_ref-Mild k _ h)
  dispatch-Contained k get_id v h = read-Contained k _ v (get_id-Mild k _ h)
  dispatch-Contained k get_status v h =
      let r = act_get_status c l k (current k).c3 in
      return_v0-Contained (keeping k r) (keeping-Mild k r (get_status-Mild k _ h))
        (λ n k' e. kept-IsRunning k k' r n v e)
  dispatch-Contained k revoke v h = revoke_by-Contained c l k v h
  dispatch-Contained k terminate v h = terminate-Contained c l u k v h
  dispatch-Contained k seal_identifier v h = read-Contained k _ v (seal-Mild k _)
  dispatch-Contained k puts v h = v
  dispatch-Contained k stop v h = tt
  dispatch-Contained k interrupt_register v h = register-Contained k _ v h
  dispatch-Contained k interrupt_enable v h = enable-Contained k _ v h
  dispatch-Contained k unknown v h = tt

  -- In a running kernel, a system call whose arguments are as they should be leaves an activation
  -- running in a sound kernel, or ends in a panic or a trap on a capability of its caller.
  pub kernel_exception_syscall-Contained :
      (k : Kernel Cap)
      → IsRunning k
      → Benign k (syscall_of (current k).v0)
      → Contained (kernel_exception_syscall c l u k)
  unfolding kernel_exception_syscall kernel_skip_instr
  kernel_exception_syscall-Contained k v h =
      bind-Contained (dispatch c l u k (syscall_of (current k).v0)) _
        (dispatch-Contained k (syscall_of (current k).v0) v h) (λ k1 v1. reframed-IsRunning k1 _ v1)
