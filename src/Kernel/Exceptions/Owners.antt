-- ===== src/Kernel/Exceptions/Owners.antt =====
-- The owner of an interrupt stays, whatever enters the kernel.
use cherios.Base.{
  ℕ, zero, suc, ◌+◌, ◌-◌, ◌/◌, ◌^◌, ◌%◌, ◌≢◌, ◌==◌, bit_and, List, ok, panic, assert, if◌then◌else◌,
  two_64,
}
use cherios.Cheri.{Cheri}
use cherios.Kernel.State.{Kernel, set_frame}
use cherios.Kernel.Env.{Layout}
use cherios.Kernel.Syscalls.{UserMemory}
use cherios.Kernel.Interrupts.{
  int_children, timer_interval, tmod, defer_timer, bit_of, clear_bit, get_others_interrupts_mask,
  kernel_timer, deliver_interrupt, interrupt_rounds, kernel_interrupt_others, kernel_interrupt,
}
use cherios.Kernel.Exceptions.{Hardware, kernel_exception_capability, handle, kernel_exception}
use cherios.Kernel.Sched.{sched_reschedule}
use cherios.Kernel.Msg.{msg_push}
use cherios.Kernel.Syscalls.Standing.{syscall-Keeps}
use cherios.Kernel.Ccall.Standing.{Stays, kernel_ccall-Keeps, kernel_creturn-Keeps}
use cherios.Kernel.Interrupts.Standing.{
  kept, stops, whole, second, Owns, bind-Keeps, then-Keeps, if-Keeps, msg_push-Keeps,
  sched_reschedule-Keeps,
}

module _ (c : Cheri) (n a : ℕ) where
  open c use {Cap}

  module _ (owned : a ≢ 0) where
    deliver_interrupt-Keeps :
        (k : Kernel Cap) (i : ℕ) → Owns n a k → Stays c n a (deliver_interrupt c.null k i)
    unfolding deliver_interrupt
    deliver_interrupt-Keeps k i v =
        let k1 =
          set_frame (record k { im = clear_bit k.im i }) 0
            (record (k.frames 0) { v0 = two_64 - 3; a0 = i }) in
        if-Keeps n a whole (k.int_child i == 0) _ _ (kept k v) (
          bind-Keeps n a second whole (msg_push k1 (k.int_child i) 0 c.null c.null) _
            (msg_push-Keeps n a k1 (k.int_child i) 0 c.null c.null v)
            (λ (full, k2) w. if-Keeps n a whole (full == 0) _ _ (kept k2 w) (stops panic)))

    interrupt_rounds-Keeps :
        (m i : ℕ) (k : Kernel Cap) (pending : ℕ)
        → Owns n a k
        → Stays c n a (interrupt_rounds c.null m i k pending)
    unfolding interrupt_rounds
    interrupt_rounds-Keeps zero i k pending v = kept k v
    interrupt_rounds-Keeps (suc m) i k pending v =
        let clear = bit_of pending i == 0 in
        bind-Keeps n a whole whole (if clear then ok k else deliver_interrupt c.null k i) _
          (if-Keeps n a whole clear _ _ (kept k v) (deliver_interrupt-Keeps k i v))
          (λ k' w. interrupt_rounds-Keeps m (i + 1) k' pending w)

    kernel_timer-Keeps :
        (k : Kernel Cap) (counts : List ℕ) → Owns n a k → Stays c n a (kernel_timer k counts)
    unfolding kernel_timer
    kernel_timer-Keeps k counts v =
        bind-Keeps n a whole whole (sched_reschedule k 0) _ (sched_reschedule-Keeps n a k 0 v)
          (λ k1 w.
            then-Keeps n a whole (defer_timer counts (tmod (k1.last_timer + timer_interval))) _
              (λ t. kept _ w))

    kernel_interrupt-Keeps :
        (k : Kernel Cap) (ipending : ℕ) (counts : List ℕ)
        → Owns n a k
        → Stays c n a (kernel_interrupt c.null k ipending counts)
    unfolding kernel_interrupt kernel_interrupt_others
    kernel_interrupt-Keeps k ipending counts v =
        let toprocess = bit_and ipending (get_others_interrupts_mask k) in
        let untimed = bit_of ipending 7 == 0 in
        bind-Keeps n a whole whole (if untimed then ok k else kernel_timer k counts) _
          (if-Keeps n a whole untimed _ _ (kept k v) (kernel_timer-Keeps k counts v))
          (λ k1 w.
            if-Keeps n a whole (toprocess == 0) _ _ (kept k1 w)
              (interrupt_rounds-Keeps int_children 0 k1 toprocess w))

    handle-Keeps :
        (l : Layout) (u : UserMemory c) (k : Kernel Cap) (hw : Hardware)
        → Owns n a k
        → Stays c n a (handle c l u k hw)
    unfolding handle kernel_exception_capability
    handle-Keeps l u k hw v =
        let cause = hw.capcause / 2 ^ 8 % 2 ^ 5 in
        if-Keeps n a whole (hw.excode == 0) _ _ (kernel_interrupt-Keeps k hw.ipending hw.counts v) (
          if-Keeps n a whole (hw.excode == 8) _ _ (syscall-Keeps c n a owned l u k v) (
            if-Keeps n a whole (hw.excode == 18) _ _
              (if-Keeps n a whole (cause == 5) _ _ (kernel_ccall-Keeps c n a l k v) (
                if-Keeps n a whole (cause == 6) _ _ (kernel_creturn-Keeps c n a k v) (stops panic)))
              (stops panic)))

    -- An activation that owns an interrupt owns it after any exception.
    pub kernel_exception-Keeps :
        (l : Layout) (u : UserMemory c) (k : Kernel Cap) (hw : Hardware)
        → Owns n a k
        → Stays c n a (kernel_exception c l u k hw)
    unfolding kernel_exception
    kernel_exception-Keeps l u k hw v =
        let k1 = record k { entered = k.entered + 1 } in
        then-Keeps n a whole (assert hw.exl) _ (λ x.
          bind-Keeps n a whole whole (handle c l u k1 hw) _ (handle-Keeps l u k1 hw v)
            (λ k2 w. if-Keeps n a whole (k2.entered - 1 == 0) _ _ (kept _ w) (stops panic)))
