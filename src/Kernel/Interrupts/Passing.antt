-- ===== src/Kernel/Interrupts/Passing.antt =====
-- The handlers of kernel/src/interrupts.c and timer.c in a running kernel.
use cherios.Base.{
  ℕ, zero, suc, ◌+◌, ◌-◌, ◌^◌, ◌<◌, ◌≡◌, ◌≢◌, bit_and, List, Bool-cases, inl, inr, ok, ◌>>=◌, ◌==◌,
  if◌then◌else◌, two_64, arith,
}
use cherios.Kernel.State.{Kernel, set_frame}
use cherios.Kernel.Msg.Ring.{count}
use cherios.Kernel.Msg.Fifo.{msg_push-full, msg_push-eq}
use cherios.Kernel.Inv.{IsSound, IsRunning, Resumes, agree, Agree-IsSound, bind-Resumes}
use cherios.Kernel.Sched.{sched_reschedule}
use cherios.Kernel.Sched.Resume.{sched_reschedule-Resumes}
use cherios.Kernel.Ccall.Deliver.{pushed-IsRunning}
use cherios.Kernel.Interrupts.{
  int_children, tmod, timer_interval, defer_timer, bit_of, clear_bit, get_others_interrupts_mask,
  kernel_timer, deliver_interrupt, interrupt_rounds, kernel_interrupt_others, kernel_interrupt,
}

-- The timer's loop ends within the values of the count register that are given, wherever it begins.
abbrev pub Settles : List ℕ → Type 0
Settles counts = (n : ℕ) → n < 2 ^ 32 → (r : ℕ) × (defer_timer counts n ≡ ok r)

module _ {Cap : Type 0} (null : Cap) where
  -- The state after one interrupt has been passed on, before its message is pushed.
  abbrev noted : Kernel Cap → ℕ → Kernel Cap
  noted k i =
      set_frame (record k { im = clear_bit k.im i }) 0
        (record (k.frames 0) { v0 = two_64 - 3; a0 = i })

  noted-IsRunning : (k : Kernel Cap) (i : ℕ) → IsRunning k → IsRunning (noted k i)
  noted-IsRunning k i v = record {
    sound = Agree-IsSound (agree k) v.sound;
    framed = v.framed;
    runs = v.runs;
  }

  deliver-Resumes : (k : Kernel Cap) (i : ℕ) → IsRunning k → Resumes (deliver_interrupt null k i)
  unfolding deliver_interrupt
  deliver-Resumes k i v =
      let child = k.int_child i in
      let there : child ≢ 0 → child < k.next_act = v.sound.wired i in
      let sound = (noted-IsRunning k i v).sound in
      elim (Bool-cases (child == 0)) [
        | inl off ↦ rw off v
        | inr on ↦ elim (Bool-cases (count (k.queues child) == 15)) [
          | inl crowded ↦
              rw
                (
                  on,
                  msg_push-full (noted k i) child 0 null null sound (there (ground arith))
                      (ground arith),
                )
                tt
          | inr room ↦
              rw
                (
                  on,
                  msg_push-eq (noted k i) child 0 null null sound (there (ground arith))
                      (ground arith),
                )
                (pushed-IsRunning (noted k i) child _ (noted-IsRunning k i v) (ground arith)
                  (there (ground arith)) (ground arith))
        ]
      ]

  one-Resumes :
      (k : Kernel Cap) (i pending : ℕ)
      → IsRunning k
      → Resumes (if bit_of pending i == 0 then ok k else deliver_interrupt null k i)
  one-Resumes k i pending v = elim (Bool-cases (bit_of pending i == 0)) [
    | inl off ↦ rw off v
    | inr on ↦ rw on (deliver-Resumes k i v)
  ]

  rounds-Resumes :
      (n i : ℕ) (k : Kernel Cap) (pending : ℕ)
      → IsRunning k
      → Resumes (interrupt_rounds null n i k pending)
  unfolding interrupt_rounds
  rounds-Resumes zero i k pending v = v
  rounds-Resumes (suc n) i k pending v =
      bind-Resumes _ (λ k'. interrupt_rounds null n (i + 1) k' pending) (one-Resumes k i pending v)
        (λ k' v'. rounds-Resumes n (i + 1) k' pending v')

  -- In a running kernel, passing on any pending interrupts keeps the kernel running, or panics
  -- because a queue is full.
  pub interrupt_others-Resumes :
      (k : Kernel Cap) (pending : ℕ)
      → IsRunning k
      → Resumes (kernel_interrupt_others null k pending)
  unfolding kernel_interrupt_others
  interrupt_others-Resumes k pending v = rounds-Resumes int_children 0 k pending v

  deferred-Resumes :
      (counts : List ℕ) (k : Kernel Cap)
      → Settles counts
      → IsRunning k
      → Resumes (do
        next_timer ← defer_timer counts (tmod (k.last_timer + timer_interval))
        ok (record k { compare = next_timer; last_timer = next_timer }))
  deferred-Resumes counts k settles v =
      let (r, done) = settles (tmod (k.last_timer + timer_interval)) (omega arith) in
      rw done (record { sound = Agree-IsSound (agree k) v.sound; framed = v.framed; runs = v.runs })

  pub timer-Resumes :
      (k : Kernel Cap) (counts : List ℕ)
      → IsSound k
      → Settles counts
      → Resumes (kernel_timer k counts)
  unfolding kernel_timer
  timer-Resumes k counts v settles =
      bind-Resumes (sched_reschedule k 0) _ (sched_reschedule-Resumes k 0 v)
        (λ k' v'. deferred-Resumes counts k' settles v')

  timed-Resumes :
      (k : Kernel Cap) (ipending : ℕ) (counts : List ℕ)
      → IsRunning k
      → Settles counts
      → Resumes (if bit_of ipending 7 == 0 then ok k else kernel_timer k counts)
  timed-Resumes k ipending counts v settles = elim (Bool-cases (bit_of ipending 7 == 0)) [
    | inl off ↦ rw off v
    | inr on ↦ rw on (timer-Resumes k counts v.sound settles)
  ]

  others-Resumes :
      (k : Kernel Cap) (pending : ℕ)
      → IsRunning k
      → Resumes (if pending == 0 then ok k else kernel_interrupt_others null k pending)
  others-Resumes k pending v = elim (Bool-cases (pending == 0)) [
    | inl no_more ↦ rw no_more v
    | inr more ↦ rw more (interrupt_others-Resumes k pending v)
  ]

  -- In a running kernel, any interrupts, the timer's among them, leave an activation running in a
  -- sound kernel, or end in a panic; provided that the timer's loop ends.
  pub kernel_interrupt-Resumes :
      (k : Kernel Cap) (ipending : ℕ) (counts : List ℕ)
      → IsRunning k
      → Settles counts
      → Resumes (kernel_interrupt null k ipending counts)
  unfolding kernel_interrupt
  kernel_interrupt-Resumes k ipending counts v settles =
      let toprocess = bit_and ipending (get_others_interrupts_mask k) in
      bind-Resumes _
        (λ k'. if toprocess == 0 then ok k' else kernel_interrupt_others null k' toprocess)
        (timed-Resumes k ipending counts v settles) (λ k' v'. others-Resumes k' toprocess v')
