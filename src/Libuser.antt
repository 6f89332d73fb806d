-- ===== src/Libuser.antt =====
-- libuser/src/object.c: the calls that a program makes of the kernel and of other activations. A
-- call sets registers and enters the kernel; afterwards it reads its result from registers.
pub mod Client
pub mod Server
pub mod Namespace
pub mod Mmap
pub mod Interrupt
use cherios.Base.{ℕ, ◌-◌, ◌^◌, Bool, true, Res, ok, halt, assertion, assert, ◌>>=◌, ◌>>◌, two_64}
use cherios.Cheri.{Cheri}
use cherios.Kernel.State.{Frame}
use cherios.Kernel.Env.{vcap_i}

-- The registers with which the kernel is entered, and the result, from those on return.
pub record Stub (Cap A : Type 0) : Type 0 where
  pub enters : Res (Frame Cap)
  pub returns : Frame Cap → A

-- `ret.rret` and `ret.cret`
abbrev pub rret : {Cap : Type 0} → Stub Cap (ℕ × Cap) → Stub Cap ℕ
rret s = record { enters = s.enters; returns = λ g. (s.returns g).0 }

abbrev pub cret : {Cap : Type 0} → Stub Cap (ℕ × Cap) → Stub Cap Cap
cret s = record { enters = s.enters; returns = λ g. (s.returns g).1 }

-- A call without a result
abbrev pub no_ret : {Cap : Type 0} → Stub Cap (ℕ × Cap) → Stub Cap (Unit {0})
no_ret s = record { enters = s.enters; returns = λ g. tt }

-- VCAP_X and VCAP_W
abbrev pub vcap_x : ℕ
vcap_x = 2

abbrev pub vcap_w : ℕ
vcap_w = 8

module _ (c : Cheri) where
  open c use {Cap}

  -- A system call with one capability
  abbrev pub syscall : ℕ → Frame Cap → Cap → Frame Cap
  syscall number f cap = record f { v0 = number; c3 = cap }

  unfoldable pub act_ctrl_get_ref : Frame Cap → Cap → Stub Cap Cap
  act_ctrl_get_ref f ctrl = record { enters = ok (syscall 21 f ctrl); returns = λ g. g.c3 }

  unfoldable pub act_ctrl_get_id : Frame Cap → Cap → Stub Cap Cap
  act_ctrl_get_id f ctrl = record { enters = ok (syscall 22 f ctrl); returns = λ g. g.c3 }

  unfoldable pub act_ctrl_revoke : Frame Cap → Cap → Stub Cap ℕ
  act_ctrl_revoke f ctrl = record { enters = ok (syscall 25 f ctrl); returns = λ g. g.v0 }

  unfoldable pub act_ctrl_terminate : Frame Cap → Cap → Stub Cap ℕ
  act_ctrl_terminate f ctrl = record { enters = ok (syscall 26 f ctrl); returns = λ g. g.v0 }

  unfoldable pub act_seal_id : Frame Cap → Cap → Stub Cap Cap
  act_seal_id f id = record { enters = ok (syscall 29 f id); returns = λ g. g.c3 }

  -- CCALL_TOP, CCALL_INSTR and CCALL_BOTTOM
  unfoldable pub ccall_regs :
      ℕ → Frame Cap → Cap → Cap → ℕ → ℕ → ℕ → ℕ → Cap → Cap → Cap → Res (Frame Cap)
  ccall_regs selector f cb cs method_nb rarg1 rarg2 rarg3 carg1 carg2 carg3 = do
    assert (vcap_i c cb 0 vcap_x true)
    assert (vcap_i c cs 0 vcap_w true)
    ok (record f {
      c1 = cb;
      c2 = cs;
      v0 = method_nb;
      a0 = rarg1;
      a1 = rarg2;
      a2 = rarg3;
      c3 = carg1;
      c4 = carg2;
      c5 = carg3;
      v1 = selector;
    })

  unfoldable pub ccall_1 : Frame Cap → Cap → Cap → ℕ → ℕ → ℕ → ℕ → Cap → Cap → Cap → Stub Cap ℕ
  unfolding ccall_regs
  ccall_1 f cb cs method_nb rarg1 rarg2 rarg3 carg1 carg2 carg3 = record {
    enters = ccall_regs 1 f cb cs method_nb rarg1 rarg2 rarg3 carg1 carg2 carg3;
    returns = λ g. g.v0;
  }

  unfoldable pub ccall_2 : Frame Cap → Cap → Cap → ℕ → ℕ → ℕ → ℕ → Cap → Cap → Cap → Stub Cap ℕ
  unfolding ccall_regs
  ccall_2 f cb cs method_nb rarg1 rarg2 rarg3 carg1 carg2 carg3 = record {
    enters = ccall_regs 2 f cb cs method_nb rarg1 rarg2 rarg3 carg1 carg2 carg3;
    returns = λ g. g.v0;
  }

  unfoldable pub ccall_4 :
      Frame Cap → Cap → Cap → ℕ → ℕ → ℕ → ℕ → Cap → Cap → Cap → Stub Cap (ℕ × Cap)
  unfolding ccall_regs
  ccall_4 f cb cs method_nb rarg1 rarg2 rarg3 carg1 carg2 carg3 = record {
    enters = ccall_regs 4 f cb cs method_nb rarg1 rarg2 rarg3 carg1 carg2 carg3;
    returns = λ g. (g.v0, g.c3);
  }

  module _ (f : Frame Cap) (cb cs : Cap) (method_nb : ℕ) where
    unfoldable pub ccall_c_n : Cap → Stub Cap (Unit {0})
    unfolding ccall_4
    ccall_c_n carg = no_ret (ccall_4 f cb cs method_nb 0 0 0 carg c.null c.null)

    unfoldable pub ccall_n_c : Stub Cap Cap
    unfolding ccall_4
    ccall_n_c = cret (ccall_4 f cb cs method_nb 0 0 0 c.null c.null c.null)

    unfoldable pub ccall_r_c : ℕ → Stub Cap Cap
    unfolding ccall_4
    ccall_r_c rarg = cret (ccall_4 f cb cs method_nb rarg 0 0 c.null c.null c.null)

    unfoldable pub ccall_c_c : Cap → Stub Cap Cap
    unfolding ccall_4
    ccall_c_c carg = cret (ccall_4 f cb cs method_nb 0 0 0 carg c.null c.null)

    unfoldable pub ccall_rr_c : ℕ → ℕ → Stub Cap Cap
    unfolding ccall_4
    ccall_rr_c rarg1 rarg2 = cret (ccall_4 f cb cs method_nb rarg1 rarg2 0 c.null c.null c.null)

    unfoldable pub ccall_n_r : Stub Cap ℕ
    unfolding ccall_4
    ccall_n_r = rret (ccall_4 f cb cs method_nb 0 0 0 c.null c.null c.null)

    unfoldable pub ccall_r_r : ℕ → Stub Cap ℕ
    unfolding ccall_4
    ccall_r_r rarg = rret (ccall_4 f cb cs method_nb rarg 0 0 c.null c.null c.null)

    unfoldable pub ccall_c_r : Cap → Stub Cap ℕ
    unfolding ccall_4
    ccall_c_r carg = rret (ccall_4 f cb cs method_nb 0 0 0 carg c.null c.null)

    unfoldable pub ccall_rr_r : ℕ → ℕ → Stub Cap ℕ
    unfolding ccall_4
    ccall_rr_r rarg1 rarg2 = rret (ccall_4 f cb cs method_nb rarg1 rarg2 0 c.null c.null c.null)

    unfoldable pub ccall_rc_r : ℕ → Cap → Stub Cap ℕ
    unfolding ccall_4
    ccall_rc_r rarg carg = rret (ccall_4 f cb cs method_nb rarg 0 0 carg c.null c.null)

    unfoldable pub ccall_rc_n : ℕ → Cap → Stub Cap (Unit {0})
    unfolding ccall_4
    ccall_rc_n rarg carg = no_ret (ccall_4 f cb cs method_nb rarg 0 0 carg c.null c.null)

    unfoldable pub ccall_cc_n : Cap → Cap → Stub Cap (Unit {0})
    unfolding ccall_4
    ccall_cc_n carg1 carg2 = no_ret (ccall_4 f cb cs method_nb 0 0 0 carg1 carg2 c.null)

    unfoldable pub ccall_rcc_r : ℕ → Cap → Cap → Stub Cap ℕ
    unfolding ccall_4
    ccall_rcc_r rarg carg1 carg2 = rret (ccall_4 f cb cs method_nb rarg 0 0 carg1 carg2 c.null)

    unfoldable pub ccall_rrrc_c : ℕ → ℕ → ℕ → Cap → Stub Cap Cap
    unfolding ccall_4
    ccall_rrrc_c rarg1 rarg2 rarg3 carg =
        cret (ccall_4 f cb cs method_nb rarg1 rarg2 rarg3 carg c.null c.null)

    unfoldable pub ccall_rrcc_r : ℕ → ℕ → Cap → Cap → Stub Cap ℕ
    unfolding ccall_4
    ccall_rrcc_r rarg1 rarg2 carg1 carg2 =
        rret (ccall_4 f cb cs method_nb rarg1 rarg2 0 carg1 carg2 c.null)

    unfoldable pub ccall_rccc_r : ℕ → Cap → Cap → Cap → Stub Cap ℕ
    unfolding ccall_4
    ccall_rccc_r rarg1 carg1 carg2 carg3 =
        rret (ccall_4 f cb cs method_nb rarg1 0 0 carg1 carg2 carg3)

  -- `get_cookie` calls method -1.
  unfoldable pub get_cookie : Frame Cap → Cap → Cap → Stub Cap Cap
  unfolding ccall_n_c
  get_cookie f cb cs = ccall_n_c f cb cs (two_64 - 1)
