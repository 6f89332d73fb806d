-- ===== src/Kernel/Interrupts.antt =====
-- kernel/src/interrupts.c and timer.c, with the interrupt mask of cp0.c. `pending` and the values
-- of the count register are what the hardware shows.
pub mod Numbers
pub mod Standing
pub mod Passing
pub mod Timer
use cherios.Base.{
  ℕ, zero, suc, ◌+◌, ◌-◌, ◌*◌, ◌/◌, ◌%◌, ◌^◌, bit_and, bit_or, Bool, true, false, List, [], ◌∷◌,
  update, Res, ok, halt, panic, overrun, diverged, assert, ◌>>=◌, ◌>>◌, not, ◌==◌, leb, ltb,
  if◌then◌else◌, two_32, two_64,
}
use cherios.Kernel.State.{Kernel, Frame, set_frame}
use cherios.Kernel.Msg.{minus_one, msg_push}
use cherios.Kernel.Sched.{sched_reschedule}

-- Entries of `int_child`
abbrev pub int_children : ℕ
int_children = 7

-- TIMER_INTERVAL and TIMER_INTERVAL_MIN
abbrev pub timer_interval : ℕ
timer_interval = 40000000

abbrev pub timer_interval_min : ℕ
timer_interval_min = 20000000

-- `TMOD`: the count register has 32 bits.
abbrev pub tmod : ℕ → ℕ
tmod count = count % 2 ^ 32

-- The loop that defers a timer that is almost missed. `counts` are the values that the count
-- register shows, one to a round.
unfoldable pub defer_timer : List ℕ → ℕ → Res ℕ
defer_timer [] next_timer = halt diverged
defer_timer (count ∷ counts) next_timer =
    let later = defer_timer counts (tmod (next_timer + timer_interval)) in
    if ltb next_timer (tmod (count + timer_interval_min)) then later else ok next_timer

-- `validate_number`: an `int` in 32 bits. It lets 7 through.
unfoldable pub validate_number : ℕ → Bool
validate_number number = if leb (2 ^ 31) number then false else leb number 7

-- `1 << i` in the mask register: bit `i` of the eight
unfoldable pub bit_of : ℕ → ℕ → ℕ
bit_of mask i = mask / 2 ^ i % 2

unfoldable pub clear_bit : ℕ → ℕ → ℕ
unfolding bit_of
clear_bit mask i = mask - bit_of mask i * 2 ^ i

unfoldable pub set_bit : ℕ → ℕ → ℕ
unfolding clear_bit
set_bit mask i = clear_bit mask i + 2 ^ i

module _ {Cap : Type 0} where
  unfoldable pub kernel_timer_init : Kernel Cap → ℕ → Kernel Cap
  kernel_timer_init k count = record k {
    last_timer = count + timer_interval;
    compare = count + timer_interval;
  }

  -- `enable_timer` comes from the boot code; the assertion says that interrupts were disabled.
  unfoldable pub kernel_interrupts_init : Kernel Cap → Bool → Bool → ℕ → Res (Kernel Cap)
  unfolding kernel_timer_init set_bit
  kernel_interrupts_init k ie enable_timer count = do
    assert (not ie)
    if enable_timer
        then (let k1 = kernel_timer_init k count in ok (record k1 { im = set_bit k1.im 7 }))
        else ok k

  -- The mask without the timer's bit.
  unfoldable pub get_others_interrupts_mask : Kernel Cap → ℕ
  get_others_interrupts_mask k = k.im % 2 ^ 7

  unfoldable pub kernel_timer : Kernel Cap → List ℕ → Res (Kernel Cap)
  unfolding defer_timer
  kernel_timer k counts = do
    k1 ← sched_reschedule k 0
    next_timer ← defer_timer counts (tmod (k1.last_timer + timer_interval))
    ok (record k1 { compare = next_timer; last_timer = next_timer })

  -- `int_child[number]`, which has seven entries
  unfoldable pub int_child_at : Kernel Cap → ℕ → Res ℕ
  int_child_at k number = if ltb number int_children then ok (k.int_child number) else halt overrun

  unfoldable pub kernel_interrupt_register : Kernel Cap → ℕ → Res (ℕ × Kernel Cap)
  unfolding validate_number int_child_at
  kernel_interrupt_register k number =
      if validate_number number
      then (do
        child ← int_child_at k number
        if child == 0
            then ok (0, record k { int_child = update k.int_child number k.curr_act })
            else ok (minus_one, k))
      else ok (minus_one, k)

  unfoldable pub kernel_interrupt_enable : Kernel Cap → ℕ → Res (ℕ × Kernel Cap)
  unfolding validate_number int_child_at set_bit
  kernel_interrupt_enable k number =
      if validate_number number
      then (do
        child ← int_child_at k number
        if child == k.curr_act
            then ok (0, record k { im = set_bit k.im number })
            else ok (minus_one, k))
      else ok (minus_one, k)

module _ {Cap : Type 0} (null : Cap) where
  -- One round of the loop of `kernel_interrupt_others`: the message comes from frame 0, method -3.
  unfoldable pub deliver_interrupt : Kernel Cap → ℕ → Res (Kernel Cap)
  unfolding clear_bit
  deliver_interrupt k i = if k.int_child i == 0 then ok k else (do
    let k1 =
        set_frame (record k { im = clear_bit k.im i }) 0
          (record (k.frames 0) { v0 = two_64 - 3; a0 = i })
    (full, k2) ← msg_push k1 (k.int_child i) 0 null null
    if full == 0 then ok k2 else halt panic)

  -- The rounds `i` to 6.
  unfoldable pub interrupt_rounds : ℕ → ℕ → Kernel Cap → ℕ → Res (Kernel Cap)
  unfolding deliver_interrupt bit_of
  interrupt_rounds zero i k pending = ok k
  interrupt_rounds (suc n) i k pending = do
    k' ← if bit_of pending i == 0 then ok k else deliver_interrupt k i
    interrupt_rounds n (i + 1) k' pending

  unfoldable pub kernel_interrupt_others : Kernel Cap → ℕ → Res (Kernel Cap)
  unfolding interrupt_rounds
  kernel_interrupt_others k pending = interrupt_rounds int_children 0 k pending

  -- `ipending & get_others_interrupts_mask()` leaves out bit 7, the timer's.
  unfoldable pub kernel_interrupt : Kernel Cap → ℕ → List ℕ → Res (Kernel Cap)
  unfolding kernel_interrupt_others kernel_timer bit_of get_others_interrupts_mask
  kernel_interrupt k ipending counts = do
    let toprocess = bit_and ipending (get_others_interrupts_mask k)
    k1 ← if bit_of ipending 7 == 0 then ok k else kernel_timer k counts
    if toprocess == 0 then ok k1 else kernel_interrupt_others k1 toprocess
