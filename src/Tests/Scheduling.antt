-- ===== src/Tests/Scheduling.antt =====
-- The ready queue, the message queues and the scheduler, on the demonstration kernel.
use cherios.Base.{ℕ, ◌≡◌, ◌≢◌, ◌⊎◌, ◌∷◌, refl, ok, halt, panic, true, false, arith}
use cherios.Kernel.State.{Kernel, Msg, waiting, schedulable, sched_status_of}
use cherios.Kernel.Ready.{sched_d2a, sched_a2d}
use cherios.Kernel.Ready.Inv.{is_queued, IsReady, sched_d2a-IsReady, sched_a2d-IsReady}
use cherios.Kernel.Msg.{minus_one, message, deliver, msg_push, msg_pop}
use cherios.Kernel.Msg.Ring.{count, pending}
use cherios.Kernel.Msg.Fifo.{pushed, pushed-IsSound, IsPosted, msg_push-IsPosted}
use cherios.Kernel.Msg.Pop.{msg_pop-pending}
use cherios.Kernel.Inv.{IsSound, IsRunning}
use cherios.Kernel.Sched.{sched_reschedule}
use cherios.Kernel.Sched.Resume.{sched_reschedule-decides}
use cherios.Tests.Toy.{Toy, toy_null, demo, no_msg, demo_frame, demo-IsSound}

-- Activation 3 has been sent a message.
abbrev mailed : Kernel Toy
mailed = pushed demo 3 no_msg

mailed-IsSound : IsSound mailed
mailed-IsSound = pushed-IsSound demo 3 no_msg demo-IsSound (omega arith) (omega arith) (omega arith)

-- A hint that cannot run
sched_reschedule-decides_example :
    (((b : ℕ) → is_queued (sched_status_of demo b) ≡ false)
      × (sched_reschedule demo 4 ≡ halt panic))
    ⊎ ((k' : Kernel Toy) × (b : ℕ) × (is_queued (sched_status_of demo b) ≡ true)
        × (sched_reschedule demo 4 ≡ ok k')
        × (k'.curr_act ≡ b)
        × IsRunning k')
sched_reschedule-decides_example = sched_reschedule-decides demo 4 demo-IsSound

sched_d2a-IsReady_example :
    (k' : Kernel Toy) × (sched_d2a demo 3 schedulable ≡ ok k')
    × IsReady k'
    × (sched_status_of k' 3 ≡ schedulable)
sched_d2a-IsReady_example =
    sched_d2a-IsReady demo 3 schedulable demo-IsSound.ready refl refl (omega arith) (omega arith)

sched_a2d-IsReady_example :
    (k' : Kernel Toy) × (sched_a2d demo 1 waiting ≡ ok k')
    × IsReady k'
    × (sched_status_of k' 1 ≡ waiting)
    × ((b : ℕ) → b ≢ 1 → k'.acts b ≡ demo.acts b)
sched_a2d-IsReady_example = sched_a2d-IsReady demo 1 waiting demo-IsSound.ready refl refl

msg_push-IsPosted_example :
    ((count (demo.queues 3) ≡ 15) × (msg_push demo 3 1 toy_null toy_null ≡ ok (minus_one, demo)))
    ⊎ ((k' : Kernel Toy) × (msg_push demo 3 1 toy_null toy_null ≡ ok (0, k'))
        × IsPosted demo k' 3 (message demo_frame toy_null toy_null))
msg_push-IsPosted_example =
    msg_push-IsPosted demo 3 1 toy_null toy_null demo-IsSound (omega arith) (omega arith)

msg_pop-pending_example :
    (k' : Kernel Toy) × (m : Msg Toy) × (msg_pop mailed 3 ≡ ok k')
    × (pending (mailed.queues 3) ≡ m ∷ pending (k'.queues 3))
    × (k'.frames 3 ≡ deliver (mailed.frames 3) m)
    × ((b : ℕ) → b ≢ 3 → (k'.queues b ≡ mailed.queues b) × (k'.frames b ≡ mailed.frames b))
    × (k' ≡ record mailed { queues = k'.queues; frames = k'.frames })
msg_pop-pending_example = msg_pop-pending mailed 3 mailed-IsSound refl
