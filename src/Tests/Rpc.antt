-- ===== src/Tests/Rpc.antt =====
-- A remote procedure call on the demonstration kernel: activation 1 calls activation 3.
use cherios.Base.{◌<◌, ◌+◌, ◌*◌, ◌^◌, ◌≡◌, refl, some, ok, arith}
use cherios.Kernel.State.{Kernel, Frame, current, set_current, set_frame}
use cherios.Kernel.Env.{kernel_unseal, act_index, vcap_i}
use cherios.Kernel.Act.{kernel_skip_instr}
use cherios.Kernel.Ccall.{
  token_offset, mode_of, sync_call, ccall_target, kernel_ccall, kernel_creturn,
}
use cherios.Kernel.Ccall.Deliver.{reframed-IsRunning}
use cherios.Kernel.Ccall.Rpc.{IsOpen, IsCall, number}
use cherios.Kernel.Ccall.Roundtrip.{IsAnswer, kernel_ccall-creturn}
use cherios.Libuser.{ccall_regs, ccall_4}
use cherios.Libuser.Client.{past_call, Calls}
use cherios.Tests.Toy.{
  Toy, toy, toy_null, toy_default, toy_Laws, table_at, demo, demo_frame, demo-IsRunning, sealed_cap,
}

-- The kernel behind the instruction
abbrev entered_demo : Kernel Toy
entered_demo =
    set_frame demo 1 (record demo_frame { pc = 0x4004; pcc = record toy_default { offset = 4 } })

skipped : entered_demo ≡ kernel_skip_instr toy demo 1
unfolding kernel_skip_instr
skipped = refl

-- What the identifier and the token unseal to, and the token
abbrev callee_id : Toy
callee_id = toy_default

abbrev bare_token : Toy
bare_token = record toy_default { len = 0; perm = 0 }

abbrev new_token : Toy
new_token = record bare_token { sealed_by = some 42000; offset = 2 ^ 32 + 9 }

finds : ccall_target toy table_at entered_demo ≡ ok (3, callee_id)
unfolding ccall_target kernel_unseal act_index
finds = refl

three-IsOpen : IsOpen toy entered_demo 3 callee_id bare_token new_token
unfolding token_offset
three-IsOpen = record {
  running = reframed-IsRunning demo _ demo-IsRunning;
  writable = refl;
  alive = refl;
  waits = refl;
  positive = omega arith;
  known = omega arith;
  root = refl;
  sealed = refl;
}

-- What activation 3 returns with
abbrev result_frame : Frame Toy
result_frame = record demo_frame { v0 = 42; c1 = new_token }

called_sync : mode_of (current demo).v1 ≡ some sync_call
unfolding mode_of
called_sync = refl

kernel_ccall-creturn_example :
    (k1 : Kernel Toy) × (k2 : Kernel Toy) × (kernel_ccall toy table_at demo ≡ ok k1)
    × IsCall toy entered_demo 3 callee_id bare_token new_token k1
    × (kernel_creturn toy (set_current k1 result_frame) ≡ ok k2)
    × IsAnswer toy toy_Laws entered_demo 3 callee_id bare_token new_token result_frame k2
kernel_ccall-creturn_example =
    kernel_ccall-creturn toy toy_Laws entered_demo 3 callee_id bare_token new_token table_at demo
      result_frame skipped called_sync finds three-IsOpen refl (omega arith) refl refl

-- Activation 1 calls method 5 of activation 3 with the number 7, through the user library.
abbrev client_frame : Frame Toy
client_frame = record demo_frame { v0 = 5; a0 = 7; v1 = 4 }

abbrev cb_three : Toy
cb_three = sealed_cap 3 (0x10000 + 3 * 256)

abbrev calling : Kernel Toy
calling = set_current demo client_frame

client_enters :
    (ccall_4 toy (current demo) cb_three (sealed_cap 3 0) 5 7 0 0 toy_null toy_null toy_null).enters
    ≡ ok client_frame
unfolding ccall_4 ccall_regs vcap_i
client_enters = refl

client_finds : ccall_target toy table_at (past_call toy demo client_frame) ≡ ok (3, callee_id)
unfolding kernel_skip_instr ccall_target kernel_unseal act_index
client_finds = refl

client-IsOpen : IsOpen toy (past_call toy demo client_frame) 3 callee_id bare_token new_token
unfolding kernel_skip_instr token_offset
client-IsOpen = record {
  running = reframed-IsRunning demo _ demo-IsRunning;
  writable = refl;
  alive = refl;
  waits = refl;
  positive = omega arith;
  known = omega arith;
  root = refl;
  sealed = refl;
}

client_small :
    number toy (past_call toy demo client_frame) 3 callee_id bare_token new_token < 2 ^ 28
unfolding kernel_skip_instr
client_small = omega arith

abbrev client_calls :
    Calls toy toy_Laws table_at demo cb_three
      (sealed_cap 3 0)
      5
      7
      0
      0
      toy_null
      toy_null
      toy_null
      client_frame
      3
      callee_id
      bare_token
      new_token
client_calls = record {
  enters = client_enters;
  finds = client_finds;
  opened = client-IsOpen;
  free = refl;
  small = client_small;
  token = refl;
}
