-- ===== src/Tests/Runs.antt =====
-- Runs of the kernel: exceptions and start-up.
use cherios.Base.{
  ℕ, ◌+◌, ◌*◌, ◌<◌, ◌≤◌, ◌≡◌, ◌∷◌, List, [], refl, true, Bool-cases, inl, inr, ltb, some, ok,
  update, arith,
}
use cherios.Kernel.State.{Kernel, current, set_current}
use cherios.Kernel.Ready.Inv.{Queued}
use cherios.Kernel.Inv.{IsRunning, Contained}
use cherios.Kernel.Env.{kernel_unseal, act_index}
use cherios.Kernel.Act.{install, kernel_skip_instr, ctrl_aid}
use cherios.Kernel.Sched.Turns.{Served, ticks-Served}
use cherios.Kernel.Sched.Resume.{switched, sched_reschedule-Queued}
use cherios.Kernel.Ccall.Deliver.{reframed-IsRunning}
use cherios.Kernel.Act.Start.{started, act_init-IsRunning}
use cherios.Kernel.Init.{BootInfo, cherios_main}
use cherios.Kernel.Interrupts.{defer_timer, kernel_interrupt_register}
use cherios.Kernel.Interrupts.Passing.{Settles}
use cherios.Kernel.Syscalls.{UserMemory, dispatch, syscall_of, kernel_exception_syscall}
use cherios.Kernel.Exceptions.{Hardware, handle, kernel_exception}
use cherios.Kernel.Exceptions.Safe.{Allowed, kernel_exception-Contained}
use cherios.Kernel.Exceptions.Reach.{boot, user, exception, Reach-IsRunning}
use cherios.Tests.Toy.{
  Toy, toy, toy_default, toy_Laws, table_at, table_at-Fits, demo, demo_frame, demo-IsRunning,
}
use cherios.Tests.Life.{short_name, blank, blank-IsBlank, with_one, starts}

-- Two values of the count register
abbrev two_counts : List ℕ
two_counts = 0 ∷ 0 ∷ []

two_counts-Settles : Settles two_counts
unfolding defer_timer
two_counts-Settles n lt = elim (Bool-cases (ltb n 20000000)) [
  | inl early ↦ (n + 40000000, ground arith)
  | inr late ↦ (n, ground arith)
]

abbrev memory : UserMemory toy
memory = record { frame_at = λ p. some demo_frame; char_at = λ p i. 97 + i }

-- Activation 1 asks for the end of activation 2.
abbrev ends_two : Kernel Toy
ends_two = set_current demo (record demo_frame {
  v0 = 26;
  c3 = record toy_default { sealed_by = some 42001; offset = 0x10000 + 2 * 256 };
})

ends_two-IsRunning : IsRunning ends_two
ends_two-IsRunning = reframed-IsRunning demo _ demo-IsRunning

-- The system call's entry
abbrev by_syscall : Hardware
by_syscall = record { exl = true; excode = 8; ipending = 0; capcause = 0; counts = two_counts }

ends_two-Allowed : Allowed toy toy_Laws table_at table_at-Fits memory ends_two by_syscall
unfolding syscall_of ctrl_aid kernel_unseal act_index
ends_two-Allowed = record {
  level = refl;
  settles = two_counts-Settles;
  benign = λ e. refl;
  refers = λ e. absurd (omega (arith, e));
  fresh = λ e. absurd (omega (arith, e));
}

kernel_exception-Contained_example :
    Contained (kernel_exception toy table_at memory ends_two by_syscall)
kernel_exception-Contained_example =
    kernel_exception-Contained toy toy_Laws table_at table_at-Fits memory ends_two by_syscall
      ends_two-IsRunning ends_two-Allowed

-- The kernel starts, and activation 1 asks for interrupt 4.
abbrev info : BootInfo toy
info = record {
  dummy_frame = demo_frame;
  kernel_name = short_name;
  init_frame = demo_frame;
  init_name = short_name;
}

begun-IsRunning : IsRunning (started with_one)
begun-IsRunning =
    (act_init-IsRunning toy toy_Laws table_at table_at-Fits blank demo_frame demo_frame short_name
      short_name (started with_one) blank-IsBlank starts).0

abbrev awake : Kernel Toy
awake = switched (started with_one) 1

one-Queued : Queued (started with_one) 1
unfolding install
one-Queued = refl

boots : cherios_main toy table_at blank info ≡ ok awake
unfolding cherios_main
boots = rw starts (sched_reschedule-Queued (started with_one) 1 begun-IsRunning.sound one-Queued)

abbrev asks : Kernel Toy
asks = set_current awake (record demo_frame { v0 = 50; a0 = 4 })

abbrev told : Kernel Toy
told =
    kernel_skip_instr toy
      (set_current (record asks { int_child = update asks.int_child 4 1; entered = 1 })
        (record (current asks) { v0 = 0 }))
      1

asked : kernel_exception toy table_at memory asks by_syscall ≡ ok (record told { entered = 0 })
unfolding kernel_exception handle kernel_exception_syscall syscall_of dispatch
    kernel_interrupt_register kernel_skip_instr install
asked = refl

asks-Allowed : Allowed toy toy_Laws table_at table_at-Fits memory asks by_syscall
unfolding syscall_of
asks-Allowed = record {
  level = refl;
  settles = two_counts-Settles;
  benign = λ e f. omega (arith, f);
  refers = λ e. absurd (omega (arith, e));
  fresh = λ e. absurd (omega (arith, e));
}

Reach-IsRunning_example : IsRunning (record told { entered = 0 })
Reach-IsRunning_example =
    Reach-IsRunning toy toy_Laws table_at table_at-Fits (record told { entered = 0 })
      (exception memory by_syscall asks (record told { entered = 0 })
        (user awake (record demo_frame { v0 = 50; a0 = 4 })
          (boot blank info awake blank-IsBlank boots))
        asks-Allowed asked)

ticks-Served_example : (n : ℕ) × (0 < n) × (n ≤ 2) × Served demo 2 n
ticks-Served_example = ticks-Served demo 2 demo-IsRunning.sound refl
