-- ===== src/Uart/Malta.antt =====
-- uart/src/uart_malta.c: the PC16550D UART.
use cherios.Base.{ℕ, bit_and, Bool, not, Res, ok, ◌==◌}
use cherios.Uart.{Port, Line}

module _ (p : Port) where
  open p use {State}

  unfoldable pub data_receive : State → ℕ × State
  data_receive s = p.ioread s 0

  unfoldable pub data_transmit : State → ℕ → State
  data_transmit s ch = p.iowrite s 0 ch

  unfoldable pub lsr_read : State → ℕ × State
  lsr_read s = p.ioread s 0x28

  unfoldable pub lcr_set : State → ℕ → State
  lcr_set s v = p.iowrite s 0x18 v

  unfoldable pub ier_set : State → ℕ → State
  ier_set s v = p.iowrite s 0x08 v

  unfoldable pub mcr_set : State → ℕ → State
  mcr_set s v = p.iowrite s 0x20 v

  unfoldable pub malta_writable : State → Bool × State
  unfolding lsr_read
  malta_writable s = let (v, s1) = lsr_read s in (not (bit_and v 0x20 == 0), s1)

  unfoldable pub malta_readable : State → Bool × State
  unfolding lsr_read
  malta_readable s = let (v, s1) = lsr_read s in (not (bit_and v 0x01 == 0), s1)

  unfoldable pub malta_read : ℕ → State → Res (ℕ × State)
  unfolding data_receive
  malta_read fuel s = ok (data_receive s)

  unfoldable pub malta_write : ℕ → State → ℕ → Res State
  unfolding data_transmit
  malta_write fuel s ch = ok (data_transmit s ch)

  -- 8 bits, no interrupts, and DTR set
  unfoldable pub malta_init : State → State
  unfolding lcr_set ier_set mcr_set
  malta_init s = mcr_set (ier_set (lcr_set s 3) 0) 1

  abbrev pub malta : Line
  malta = record {
    State = State;
    uart_writable = malta_writable;
    uart_readable = malta_readable;
    uart_read = malta_read;
    uart_write = malta_write;
  }
