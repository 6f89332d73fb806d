-- ===== src/Tests/Clients.antt =====
-- Calls from activation 1 of the demonstration kernel to activation 3.
use cherios.Base.{ℕ, ◌+◌, ◌*◌, ◌^◌, ◌<◌, ◌≡◌, refl, some, ok, arith}
use cherios.Kernel.State.{Frame, current}
use cherios.Kernel.Env.{kernel_unseal, act_index, vcap_i}
use cherios.Kernel.Act.{kernel_skip_instr}
use cherios.Kernel.Ccall.{token_offset, ccall_target}
use cherios.Kernel.Ccall.Deliver.{reframed-IsRunning}
use cherios.Kernel.Ccall.Rpc.{IsOpen, number}
use cherios.Libuser.{ccall_regs, ccall_4}
use cherios.Libuser.Client.{past_call, Calls}
use cherios.Tests.Toy.{
  Toy, toy, toy_null, toy_default, toy_Laws, table_at, demo, demo_frame, demo-IsRunning, sealed_cap,
}

-- The service's reference and identifier
abbrev pub ns_three : Toy
ns_three = sealed_cap 3 (0x10000 + 3 * 256)

abbrev pub id_three : Toy
id_three = sealed_cap 3 0

-- The registers of a call from activation 1
abbrev pub frame_with : ℕ → ℕ → ℕ → ℕ → Toy → Toy → Frame Toy
frame_with m r1 r2 r3 p1 p2 = record demo_frame {
  v0 = m;
  a0 = r1;
  a1 = r2;
  a2 = r3;
  c3 = p1;
  c4 = p2;
  v1 = 4;
}

abbrev pub bare_token : Toy
bare_token = record toy_default { len = 0; perm = 0 }

abbrev pub new_token : Toy
new_token = record bare_token { sealed_by = some 42000; offset = 2 ^ 32 + 9 }

pub call_enters :
    (m r1 r2 r3 : ℕ) (p1 p2 : Toy)
    → (ccall_4 toy (current demo) ns_three id_three m r1 r2 r3 p1 p2 toy_null).enters
      ≡ ok (frame_with m r1 r2 r3 p1 p2)
unfolding ccall_4 ccall_regs vcap_i
call_enters m r1 r2 r3 p1 p2 = refl

pub call_finds :
    (m r1 r2 r3 : ℕ) (p1 p2 : Toy)
    → ccall_target toy table_at (past_call toy demo (frame_with m r1 r2 r3 p1 p2))
      ≡ ok (3, toy_default)
unfolding kernel_skip_instr ccall_target kernel_unseal act_index
call_finds m r1 r2 r3 p1 p2 = refl

pub call-IsOpen :
    (m r1 r2 r3 : ℕ) (p1 p2 : Toy)
    → IsOpen toy
        (past_call toy demo (frame_with m r1 r2 r3 p1 p2))
        3
        toy_default
        bare_token
        new_token
unfolding kernel_skip_instr token_offset
call-IsOpen m r1 r2 r3 p1 p2 = record {
  running = reframed-IsRunning demo _ demo-IsRunning;
  writable = refl;
  alive = refl;
  waits = refl;
  positive = omega arith;
  known = omega arith;
  root = refl;
  sealed = refl;
}

pub call_small :
    (m r1 r2 r3 : ℕ) (p1 p2 : Toy)
    → number toy
        (past_call toy demo (frame_with m r1 r2 r3 p1 p2))
        3
        toy_default
        bare_token
        new_token
      < 2 ^ 28
unfolding kernel_skip_instr
call_small m r1 r2 r3 p1 p2 = omega arith

abbrev pub call_with :
    (m r1 r2 r3 : ℕ) (p1 p2 : Toy)
    → Calls toy toy_Laws table_at demo ns_three id_three m r1 r2 r3 p1 p2 toy_null
        (frame_with m r1 r2 r3 p1 p2)
        3
        toy_default
        bare_token
        new_token
call_with m r1 r2 r3 p1 p2 = record {
  enters = call_enters m r1 r2 r3 p1 p2;
  finds = call_finds m r1 r2 r3 p1 p2;
  opened = call-IsOpen m r1 r2 r3 p1 p2;
  free = refl;
  small = call_small m r1 r2 r3 p1 p2;
  token = refl;
}

-- Calls with one number
abbrev pub frame_of : ℕ → ℕ → Toy → Toy → Frame Toy
frame_of m r1 p1 p2 = frame_with m r1 0 0 p1 p2

abbrev pub call_of :
    (m r1 : ℕ) (p1 p2 : Toy)
    → Calls toy toy_Laws table_at demo ns_three id_three m r1 0 0 p1 p2 toy_null
        (frame_of m r1 p1 p2)
        3
        toy_default
        bare_token
        new_token
call_of m r1 p1 p2 = call_with m r1 0 0 p1 p2
