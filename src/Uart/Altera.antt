-- ===== src/Uart/Altera.antt =====
-- uart/src/uart_altera.c: the JTAG UART, with its buffer of one character.
use cherios.Base.{ℕ, bit_and, Bool, true, false, not, Res, ok, ◌>>=◌, ◌==◌, if◌then◌else◌}
use cherios.Uart.{Port, Line, await}

-- The device and the static variables
pub record Altera (p : Port) : Type 0 where
  pub port : p.State
  pub buffer_data : ℕ
  pub buffer_valid : Bool

module _ (p : Port) where
  abbrev pub data_off : ℕ
  data_off = 0

  abbrev pub control_off : ℕ
  control_off = 4

  unfoldable pub data_read : Altera p → ℕ × Altera p
  data_read s = let (v, port) = p.ioread s.port data_off in (v, record s { port = port })

  unfoldable pub data_write : Altera p → ℕ → Altera p
  data_write s v = record s { port = p.iowrite s.port data_off v }

  unfoldable pub control_read : Altera p → ℕ × Altera p
  control_read s = let (v, port) = p.ioread s.port control_off in (v, record s { port = port })

  -- There is space in the device's queue.
  unfoldable pub altera_writable : Altera p → Bool × Altera p
  unfolding control_read
  altera_writable s = let (v, s1) = control_read s in (not (bit_and v 0xffff0000 == 0), s1)

  -- A character that has just come counts the next time.
  unfoldable pub altera_readable : Altera p → Bool × Altera p
  unfolding data_read
  altera_readable s =
      if s.buffer_valid
      then (true, s)
      else (let (v, s1) = data_read s in
          if bit_and v 0x8000 == 0
          then (false, s1)
          else (false, record s1 { buffer_valid = true; buffer_data = bit_and v 0xff }))

  unfoldable pub altera_read : ℕ → Altera p → Res (ℕ × Altera p)
  unfolding altera_readable
  altera_read fuel s = do
    s1 ← await altera_readable fuel s
    ok (s1.buffer_data, record s1 { buffer_valid = false })

  -- A line feed has a carriage return in front of it.
  unfoldable pub altera_write : ℕ → Altera p → ℕ → Res (Altera p)
  unfolding altera_writable data_write
  altera_write fuel s ch =
      if ch == 10
      then (do s1 ← await altera_writable fuel (data_write s 13); ok (data_write s1 ch))
      else ok (data_write s ch)

  abbrev pub altera : Line
  altera = record {
    State = Altera p;
    uart_writable = altera_writable;
    uart_readable = altera_readable;
    uart_read = altera_read;
    uart_write = altera_write;
  }
