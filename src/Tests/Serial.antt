-- ===== src/Tests/Serial.antt =====
-- A JTAG UART that is busy for two reads of its control register after each character, and loses
-- what is written while it is.
use cherios.Base.{
  ℕ, ◌-◌, ◌≡◌, refl, false, List, [], ◌∷◌, ◌++◌, ok, ◌==◌, if◌then◌else◌, min, arith,
}
use cherios.Uart.{Port, uart_puts}
use cherios.Uart.Altera.{Altera, altera}
use cherios.Uart.Output.{Sends, uart_puts-altera}

-- What has been sent, and how often the status will be read as busy; a number above 2 stands for 2.
pub record Jtag : Type 0 where
  pub bytes : List ℕ
  pub wait : ℕ

abbrev left : Jtag → ℕ
left s = min s.wait 2

abbrev jtag : Port
jtag = record {
  State = Jtag;
  ioread = λ s offset. ((if left s == 0 then 0x10000 else 0), record s { wait = left s - 1 });
  iowrite =
      λ s offset v. record { bytes = if left s == 0 then s.bytes ++ v ∷ [] else s.bytes; wait = 2 };
}

abbrev jtag_sends : Sends jtag 4 0xffff0000 2
jtag_sends = record {
  sent = λ s. s.bytes;
  busy = left;
  room = λ s. if left s == 0 then 1 else 0;
  write_sends = λ s v fit. ground arith;
  shows_room = λ s shown. ground arith;
  read_keeps = λ s. refl;
  settles = λ s. omega arith;
  ready = λ s e f. absurd (omega (arith, rw e at f));
  bounded = λ s. omega arith;
}

abbrev idle : Altera jtag
idle = record { port = record { bytes = []; wait = 0 }; buffer_data = 0; buffer_valid = false }

-- The text "A", a line feed and "B"
uart_puts-altera_example :
    (s' : Altera jtag) × (uart_puts (altera jtag) 3 idle (65 ∷ 10 ∷ 66 ∷ 0 ∷ []) ≡ ok s')
    × (s'.port.bytes ≡ 65 ∷ 13 ∷ 10 ∷ 66 ∷ [])
uart_puts-altera_example =
    uart_puts-altera jtag 2 3 jtag_sends (65 ∷ 10 ∷ 66 ∷ []) [] idle (omega arith)
      ((λ e. omega (arith, e)), ((λ e. omega (arith, e)), ((λ e. omega (arith, e)), tt)))
