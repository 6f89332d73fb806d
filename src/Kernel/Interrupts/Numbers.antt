-- ===== src/Kernel/Interrupts/Numbers.antt =====
-- Interrupt numbers past the table: kernel/src/interrupts.c.
use cherios.Base.{◌≡◌, refl, halt, overrun}
use cherios.Kernel.State.{Kernel}
use cherios.Kernel.Interrupts.{kernel_interrupt_register, kernel_interrupt_enable}

module _ {Cap : Type 0} where
  -- Registering for interrupt 7, or enabling it, passes the check of the number, and the access is
  -- past the end of `int_child`.
  pub interrupt_seven :
      (k : Kernel Cap)
      → (kernel_interrupt_register k 7 ≡ halt overrun)
        × (kernel_interrupt_enable k 7 ≡ halt overrun)
  unfolding kernel_interrupt_register kernel_interrupt_enable
  interrupt_seven k = (refl, refl)
