-- ===== src/Uart.antt =====
-- uart/src: the console service's serial line: uart.c over the device's own code, uart_altera.c or
-- uart_malta.c. The registers are a parameter; a loop that waits takes fuel.
pub mod Altera
pub mod Malta
pub mod Output
use cherios.Base.{
  ℕ, zero, suc, Bool, true, false, List, [], ◌∷◌, Res, ok, halt, trap, diverged, ◌>>=◌, ◌==◌,
  if◌then◌else◌,
}

-- The device's registers: a read may change the state.
pub record Port : Type 1 where
  pub State : Type 0
  pub ioread : State → ℕ → ℕ × State
  pub iowrite : State → ℕ → ℕ → State

-- What uart.c asks of the device's code.
pub record Line : Type 1 where
  pub State : Type 0
  pub uart_writable : State → Bool × State
  pub uart_readable : State → Bool × State
  pub uart_read : ℕ → State → Res (ℕ × State)
  pub uart_write : ℕ → State → ℕ → Res State

-- `while (!(test()))`
unfoldable pub await {ℓ} : {S : Type ℓ} → (S → Bool × S) → ℕ → S → Res S
await test zero s = halt diverged
await test (suc fuel) s =
    let (passed, s1) = test s in elim passed [ true ↦ ok s1 | false ↦ await test fuel s1 ]

module _ (line : Line) where
  open line use {State}

  unfoldable pub uart_putc : ℕ → State → ℕ → Res State
  unfolding await
  uart_putc fuel s ch = do s1 ← await line.uart_writable fuel s; line.uart_write fuel s1 ch

  unfoldable pub uart_getc : ℕ → State → Res (ℕ × State)
  unfolding await
  uart_getc fuel s = do s1 ← await line.uart_readable fuel s; line.uart_read fuel s1

  unfoldable pub uart_poll_putc : State → Bool × State
  uart_poll_putc s = line.uart_writable s

  unfoldable pub uart_poll_getc : State → Bool × State
  uart_poll_getc s = line.uart_readable s

  -- The characters from `str` on; behind them the capability ends.
  unfoldable pub uart_puts : ℕ → State → List ℕ → Res State
  unfolding uart_putc
  uart_puts fuel s [] = halt trap
  uart_puts fuel s (ch ∷ str) =
      if ch == 0 then ok s else (do s1 ← uart_putc fuel s ch; uart_puts fuel s1 str)
