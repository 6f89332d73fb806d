-- ===== src/Tests/Life.antt =====
-- Registration, revocation and termination, on the demonstration kernel.
use cherios.Base.{ℕ, ◌+◌, ◌*◌, ◌≤◌, ◌≡◌, ◌∷◌, [], refl, ◌⊎◌, some, ok, halt, trap, arith}
use cherios.Kernel.State.{Kernel, revoked, dead, set_status}
use cherios.Kernel.Ready.Inv.{Queued}
use cherios.Kernel.Inv.{IsSound}
use cherios.Kernel.Env.{
  kernel_unseal, kernel_seal, kernel_cap_to_exec, act_index, vcap, vcap_i, Text,
}
use cherios.Kernel.Act.{
  ctrl_aid, act_revoke, act_terminate, act_register, act_name, act_create_ref, act_create_ctrl_ref,
  install, revoke_aid,
}
use cherios.Kernel.Act.Life.{IsNew, act_register-IsNew}
use cherios.Kernel.Act.{act_init, act_init_user, without_acts, retired}
use cherios.Kernel.Act.Start.{IsBlank, started, act_init-Starts}
use cherios.Kernel.Ready.{sched_d2a, sched_create}
use cherios.Kernel.Msg.{msg_queue_init}
use cherios.Kernel.State.{waiting}
use cherios.Kernel.Inv.{IsRunning}
use cherios.Kernel.Act.Terminate.{ended, IsStale, act_terminate-Queued, act_terminate-stale}
use cherios.Tests.Toy.{
  Toy, toy, toy_default, toy_Laws, table_at, table_at-Fits, demo, demo_frame, demo-IsSound,
  sealed_cap,
}

-- The control reference of an activation
abbrev ctrl_of : ℕ → Toy
ctrl_of a = record toy_default { sealed_by = some 42001; offset = 0x10000 + a * 256 }

ctrl_of_two : ctrl_aid toy table_at demo (ctrl_of 2) ≡ ok 2
unfolding ctrl_aid kernel_unseal act_index
ctrl_of_two = refl

ctrl_of_three : ctrl_aid toy table_at demo (ctrl_of 3) ≡ ok 3
unfolding ctrl_aid kernel_unseal act_index
ctrl_of_three = refl

act_terminate-Queued_example :
    (act_terminate toy table_at demo (ctrl_of 2) ≡ ok (0, ended demo 2))
    × IsSound (ended demo 2)
    × (((ended demo 2).acts 2).status ≡ dead)
act_terminate-Queued_example =
    act_terminate-Queued toy table_at demo (ctrl_of 2) 2 demo-IsSound ctrl_of_two refl

-- Activation 3 waits, and the slot past the end of the queue still names it.
three-IsStale : IsStale demo 3
three-IsStale = record { parked = refl; stale = refl; others = omega arith }

act_terminate-stale_example :
    (r : ℕ) × (k' : Kernel Toy) × (act_terminate toy table_at demo (ctrl_of 3) ≡ ok (r, k'))
    × (k'.squeue_a_end + 1 ≡ 2)
    × Queued k' 2
    × (k'.squeue_a_end ≤ k'.aqueue 2)
act_terminate-stale_example =
    act_terminate-stale toy table_at demo (ctrl_of 3) 3 demo-IsSound ctrl_of_three three-IsStale

revoked_three : act_revoke toy table_at demo (ctrl_of 3) ≡ ok (0, set_status demo 3 revoked)
unfolding act_revoke ctrl_aid kernel_unseal act_index revoke_aid
revoked_three = refl

-- The name "ab"
abbrev pub short_name : Text toy
short_name = record { cap = record toy_default { len = 2 }; char = λ i. 97 + i }

abbrev with_five : Kernel Toy
with_five =
    install demo demo_frame (97 ∷ 98 ∷ []) (sealed_cap 5 (0x10000 + 5 * 256))
      (record toy_default { sealed_by = some 5 })

registers : act_register toy table_at demo (some demo_frame) short_name ≡ ok (ctrl_of 5, with_five)
unfolding act_register act_name vcap vcap_i act_create_ref act_create_ctrl_ref kernel_seal
    kernel_cap_to_exec
registers = refl

act_register-IsNew_example : IsNew toy toy_Laws table_at table_at-Fits demo with_five (ctrl_of 5)
act_register-IsNew_example =
    act_register-IsNew toy toy_Laws table_at table_at-Fits demo (some demo_frame) short_name
      (ctrl_of 5) with_five demo-IsSound registers

-- The kernel's static variables before `act_init`
abbrev pub blank : Kernel Toy
blank = record demo {
  acts = λ a. record (demo.acts a) { sched_status = waiting };
  squeue_a_end = 0;
  next_act = 0;
  curr_act = 0;
  framep = 0;
  int_child = λ i. 0;
}

pub blank-IsBlank : IsBlank blank
blank-IsBlank = record {
  none_listed = refl;
  waits = λ a. refl;
  quiet = λ a. refl;
  unwired = λ i. refl;
}

-- The kernel with activations 0 and 1
abbrev with_zero : Kernel Toy
with_zero =
    install (without_acts blank (record toy_default { len = 0x1000 })) demo_frame (97 ∷ 98 ∷ [])
      (sealed_cap 0 0x10000) (record toy_default { len = 0x1000; sealed_by = some 0 })

abbrev pub with_one : Kernel Toy
with_one =
    install (record (retired with_zero) { curr_act = 1; next_act = 1 }) demo_frame (97 ∷ 98 ∷ [])
      (sealed_cap 1 0x10100) (record toy_default { len = 0x1000; sealed_by = some 1 })

pub starts :
    act_init toy table_at blank demo_frame short_name demo_frame short_name ≡ ok (started with_one)
unfolding act_init act_init_user act_register act_name vcap vcap_i act_create_ref
    act_create_ctrl_ref kernel_seal kernel_cap_to_exec install sched_d2a msg_queue_init sched_create
starts = refl

act_init-Starts_example :
    (act_init toy table_at blank demo_frame short_name demo_frame short_name ≡ halt trap)
    ⊎ ((k : Kernel Toy) × (act_init toy table_at blank demo_frame short_name demo_frame short_name
          ≡ ok k)
        × IsRunning k
        × (k.curr_act ≡ 1))
act_init-Starts_example =
    act_init-Starts toy toy_Laws table_at table_at-Fits blank demo_frame demo_frame short_name
      short_name blank-IsBlank (omega arith) (omega arith)
