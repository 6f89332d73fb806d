-- ===== src/Tests/Calls.antt =====
-- CCall, CReturn, interrupts and the timer, on the demonstration kernel.
use cherios.Base.{
  List, length, ◌++◌, ℕ, ◌+◌, ◌*◌, ◌^◌, ◌<◌, ◌≤◌, ◌≡◌, ◌⊎◌, ◌∷◌, [], refl, update, true, none, ok,
  halt, panic, arith, ◌-◌, ◌%◌, two_32, two_64,
}
use cherios.Kernel.State.{Kernel, Frame, current, set_current, waiting}
use cherios.Kernel.Env.{kernel_unseal, act_index}
use cherios.Kernel.Ccall.{ccall_target, creturn_reply, token_caller, token_unique}
use cherios.Kernel.Ccall.Call.{Refers}
use cherios.Kernel.Ccall.Reply.{IsReply, creturn-IsReply, creturn-unexpected}
use cherios.Kernel.Act.{kernel_skip_instr}
use cherios.Kernel.Interrupts.{
  tmod, timer_interval, timer_interval_min, defer_timer, kernel_interrupt_register,
}
use cherios.Kernel.Interrupts.Timer.{Behind, defer_timer-ends}
use cherios.Kernel.Syscalls.{UserMemory, dispatch, syscall_of, kernel_exception_syscall}
use cherios.Kernel.Exceptions.{Hardware, handle, kernel_exception}
use cherios.Libuser.Interrupt.{interrupt_register, interrupt_enable}
use cherios.Libuser.Interrupt.Answers.{IsAnswered}
use cherios.Libuser.Interrupt.Owned.{now, runs, interrupt_register-owned}
use cherios.Tests.Toy.{Toy, toy, toy_default, table_at, demo, demo-IsRunning, sealed_cap}

demo-Refers : Refers toy demo (ccall_target toy table_at demo)
unfolding ccall_target kernel_unseal act_index
demo-Refers = (omega arith, omega arith)

-- The token of activation 4's call number 9, sealed and open
abbrev token : Toy
token = sealed_cap 42000 (4 * 2 ^ 32 + 9)

abbrev open_token : Toy
open_token = record toy_default { offset = 4 * 2 ^ 32 + 9 }

token_of_four : token_caller open_token.offset ≡ 4
unfolding token_caller
token_of_four = refl

creturn-IsReply_example :
    (r : Kernel Toy) × (creturn_reply toy demo token ≡ ok r) × IsReply toy demo token open_token r
unfolding token_caller token_unique
creturn-IsReply_example =
    creturn-IsReply toy demo token open_token refl demo-IsRunning refl refl (omega arith)
      (omega arith)

-- Activation 4 is not blocked any more.
abbrev answered : Kernel Toy
answered = record demo { acts = λ a. record (demo.acts a) { sched_status = waiting } }

creturn-unexpected_example : creturn_reply toy demo (sealed_cap 42000 (4 * 2 ^ 32 + 8)) ≡ halt panic
unfolding token_caller token_unique
creturn-unexpected_example =
    creturn-unexpected toy demo (sealed_cap 42000 (4 * 2 ^ 32 + 8))
      (record toy_default { offset = 4 * 2 ^ 32 + 8 }) refl (ground arith)

-- Activation 1 owns interrupt 4.
abbrev owned : Kernel Toy
owned = record demo { int_child = update demo.int_child 4 1 }

abbrev nowhere : UserMemory toy
nowhere = record { frame_at = λ p. none; char_at = λ p i. 0 }

abbrev system_call : Hardware
system_call = record { exl = true; excode = 8; ipending = 0; capcause = 0; counts = [] }

abbrev call_frame : Frame Toy
call_frame = record (current demo) { v0 = 50; a0 = 4 }

-- The kernel inside the call, with its result, and after it
abbrev calling : Kernel Toy
calling = record (set_current owned call_frame) { entered = 1 }

abbrev resulting : Kernel Toy
resulting = set_current calling (record (current calling) { v0 = 0 })

abbrev finished : Kernel Toy
finished =
    record (set_current resulting (record (current resulting) {
      pc = ((current resulting).pc + 4) % two_64;
      pcc = toy.inc_offset (current resulting).pcc 4;
    })) { entered = 0 }

registered :
    kernel_exception toy table_at nowhere (set_current demo call_frame) system_call ≡ ok finished
unfolding kernel_exception handle kernel_exception_syscall dispatch syscall_of
    kernel_interrupt_register kernel_skip_instr
registered = refl

enters_call : (interrupt_register (current demo) 4).enters ≡ ok call_frame
unfolding interrupt_register
enters_call = refl

-- The program goes on.
abbrev goes_on : Kernel Toy
goes_on = set_current finished (current demo)

interrupt_register-owned_example :
    IsAnswered toy table_at nowhere demo system_call
      (interrupt_register (current demo) 4)
      0
      (update demo.int_child 4 1)
    × IsAnswered toy table_at nowhere goes_on system_call
        (interrupt_register (current goes_on) 4)
        (two_32 - 1)
        goes_on.int_child
    × IsAnswered toy table_at nowhere goes_on system_call
        (interrupt_enable (current goes_on) 4)
        0
        goes_on.int_child
interrupt_register-owned_example =
    interrupt_register-owned toy table_at nowhere demo finished goes_on system_call system_call
      call_frame 4 (record { framed = refl; outside = refl })
      (record { framed = refl; outside = refl }) (record { exl = refl; excode = refl })
      (record { exl = refl; excode = refl }) (omega arith) (omega arith) refl enters_call registered
      (runs finished (current demo) now)

defer_timer-ends_example :
    (r : ℕ) × (early : List ℕ) × (count : ℕ) × (rest : List ℕ) × (defer_timer
        (100000000 ∷ 100000100 ∷ 100000200 ∷ [])
        50000000
      ≡ ok r)
    × (100000000 ∷ 100000100 ∷ 100000200 ∷ [] ≡ early ++ count ∷ rest)
    × Behind 50000000 early
    × (r ≡ 50000000 + length early * timer_interval)
    × (tmod (count + timer_interval_min) ≤ r)
    × (r < 2 ^ 32)
    × ((r ≡ 50000000) ⊎ (r < 120000200 + timer_interval))
defer_timer-ends_example =
    defer_timer-ends (100000000 ∷ 100000100 ∷ 100000200 ∷ []) 120000200 50000000
      (omega arith, (omega arith, (omega arith, tt))) (omega arith) (omega arith) (omega arith)
      (omega arith)
