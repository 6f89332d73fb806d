-- ===== src/Uart/Output.antt =====
-- What the serial line of uart/src sends.
use cherios.Base.{
  ℕ, zero, suc, ◌-◌, ◌≤◌, ◌<◌, ◌≡◌, ◌≢◌, refl, sym, ap, ◌∙◌, bit_and, Bool, true, false, Bool-cases,
  inl, inr, List, [], ◌∷◌, ◌++◌, ok, ◌==◌, if◌then◌else◌, arith,
}
use mathlib.Core.List.{append_assoc, append-nil}
use cherios.Uart.{Port, Line, await, uart_putc, uart_puts}
use cherios.Uart.Altera.{Altera, data_write, control_read, altera_writable, altera_write, altera}
use cherios.Uart.Malta.{malta_writable, malta_write, malta, lsr_read, data_transmit}

-- A device that sends what is written to its data register while it has room; what is written
-- without room may be lost. Its status shows room, and does so after at most `bound` reads of it.
pub record Sends (p : Port) (status mask bound : ℕ) : Type 0 where
  pub sent : p.State → List ℕ
  pub busy : p.State → ℕ
  pub room : p.State → ℕ
  pub write_sends : (s : p.State) (v : ℕ) → room s ≢ 0 → sent (p.iowrite s 0 v) ≡ sent s ++ v ∷ []
  pub shows_room :
      (s : p.State) → bit_and (p.ioread s status).0 mask ≢ 0 → room (p.ioread s status).1 ≢ 0
  pub read_keeps : (s : p.State) → sent (p.ioread s status).1 ≡ sent s
  pub settles : (s : p.State) → busy (p.ioread s status).1 ≡ busy s - 1
  pub ready : (s : p.State) → busy s ≡ 0 → bit_and (p.ioread s status).0 mask ≢ 0
  pub bounded : (s : p.State) → busy s ≤ bound

-- A loop whose test passes once a measure that goes down has reached 0.
await-ends :
    {S : Type 0} (test : S → Bool × S) (busy : S → ℕ) (sent : S → List ℕ) (room : S → ℕ)
    → ((s : S) → busy s ≡ 0 → (test s).0 ≡ true)
    → ((s : S) → busy (test s).1 ≡ busy s - 1)
    → ((s : S) → sent (test s).1 ≡ sent s)
    → ((s : S) → (test s).0 ≡ true → room (test s).1 ≢ 0)
    → (fuel : ℕ) (s : S) → busy s < fuel
    → (s' : S) × (await test fuel s ≡ ok s') × (sent s' ≡ sent s) × (room s' ≢ 0)
unfolding await
await-ends test busy sent room ready settles keeps shows zero s lt = absurd (omega arith)
await-ends test busy sent room ready settles keeps shows (suc fuel) s lt =
    elim (Bool-cases (test s).0) [
      | inl passes ↦ ((test s).1, rw (passes, await) refl, keeps s, shows s passes)
      | inr waits ↦
          let some_busy : busy s ≢ 0 = λ e. cc (ready s e, waits) in
          let left : busy (test s).1 < fuel = omega (arith, settles s, some_busy) in
          let (s', done, same, fit) =
            await-ends test busy sent room ready settles keeps shows fuel (test s).1 left in
          (s', rw (waits, await) done, same ∙ keeps s, fit)
    ]

-- The bytes that a text is sent as
abbrev pub encoded : (ℕ → List ℕ) → List ℕ → List ℕ
encoded encode [] = []
encoded encode (ch ∷ text) = encode ch ++ encoded encode text

abbrev pub HasNoZero : List ℕ → Type 0
HasNoZero [] = Unit {0}
HasNoZero (ch ∷ text) = (ch ≢ 0) × HasNoZero text

-- A line on which a character comes to some bytes.
pub record Prints (line : Line) (fuel : ℕ) (encode : ℕ → List ℕ) : Type 0 where
  pub log : line.State → List ℕ
  pub putc_log :
      (s : line.State) (ch : ℕ)
      → (s' : line.State) × (uart_putc line fuel s ch ≡ ok s') × (log s' ≡ log s ++ encode ch)

puts-log :
    (line : Line) (fuel : ℕ) (encode : ℕ → List ℕ) (pr : Prints line fuel encode)
    (text rest : List ℕ) (s : line.State)
    → HasNoZero text
    → (s' : line.State) × (uart_puts line fuel s (text ++ 0 ∷ rest) ≡ ok s')
      × (pr.log s' ≡ pr.log s ++ encoded encode text)
unfolding uart_puts
puts-log line fuel encode pr [] rest s no_zero = (s, refl, sym (append-nil (pr.log s)))
puts-log line fuel encode pr (ch ∷ text) rest s (not_zero, more) =
    let (s1, put, one) = pr.putc_log s ch in
    let (s', done, all) = puts-log line fuel encode pr text rest s1 more in
    let off : (ch == 0) ≡ false = ground arith in
    (
      s',
      rw (off, put) done,
      all
          ∙ ap (λ l. l ++ encoded encode text) one
          ∙ append_assoc (pr.log s) (encode ch) (encoded encode text),
    )

abbrev pub malta_encode : ℕ → List ℕ
malta_encode ch = ch ∷ []

-- A carriage return in front of each line feed
abbrev pub altera_encode : ℕ → List ℕ
altera_encode ch = if ch == 10 then 13 ∷ 10 ∷ [] else ch ∷ []

encoded-malta : (text : List ℕ) → encoded malta_encode text ≡ text
encoded-malta [] = refl
encoded-malta (ch ∷ text) = ap (λ l. ch ∷ l) (encoded-malta text)

malta_wait :
    (p : Port) (bound fuel : ℕ) (d : Sends p 0x28 0x20 bound)
    → bound < fuel
    → (s : p.State)
    → (s' : p.State) × (await (malta_writable p) fuel s ≡ ok s')
      × (d.sent s' ≡ d.sent s)
      × (d.room s' ≢ 0)
unfolding malta_writable lsr_read
malta_wait p bound fuel d lt s =
    await-ends (malta_writable p) d.busy d.sent d.room (λ s e. ground (arith, d.ready s e))
      d.settles d.read_keeps (λ s e. d.shows_room s (ground arith)) fuel s
      (omega (arith, d.bounded s))

malta_line :
    (p : Port) (bound fuel : ℕ)
    → Sends p 0x28 0x20 bound
    → bound < fuel
    → Prints (malta p) fuel malta_encode
unfolding uart_putc malta_write data_transmit
malta_line p bound fuel d lt = record {
  log = d.sent;
  putc_log = λ s ch.
      let (s1, waited, same, fit) = malta_wait p bound fuel d lt s in
      (p.iowrite s1 0 ch, rw waited refl, d.write_sends s1 ch fit ∙ ap (λ l. l ++ ch ∷ []) same);
}

altera_wait :
    (p : Port) (bound fuel : ℕ) (d : Sends p 4 0xffff0000 bound)
    → bound < fuel
    → (s : Altera p)
    → (s' : Altera p) × (await (altera_writable p) fuel s ≡ ok s')
      × (d.sent s'.port ≡ d.sent s.port)
      × (d.room s'.port ≢ 0)
unfolding altera_writable control_read
altera_wait p bound fuel d lt s =
    await-ends (altera_writable p) (λ s. d.busy s.port) (λ s. d.sent s.port) (λ s. d.room s.port)
      (λ s e. ground (arith, d.ready s.port e)) (λ s. d.settles s.port) (λ s. d.read_keeps s.port)
      (λ s e. d.shows_room s.port (ground arith)) fuel s (omega (arith, d.bounded s.port))

altera_line :
    (p : Port) (bound fuel : ℕ)
    → Sends p 4 0xffff0000 bound
    → bound < fuel
    → Prints (altera p) fuel altera_encode
unfolding uart_putc altera_write data_write
altera_line p bound fuel d lt = record {
  log = λ s. d.sent s.port;
  putc_log = λ s ch.
      let (s1, waited, same, fit) = altera_wait p bound fuel d lt s in
      elim (Bool-cases (ch == 10)) [
        | inr plain ↦ (
          record s1 { port = p.iowrite s1.port 0 ch },
          rw (waited, plain) refl,
          rw plain (d.write_sends s1.port ch fit ∙ ap (λ l. l ++ ch ∷ []) same),
        )
        | inl feed ↦
            let s2 : Altera p = record s1 { port = p.iowrite s1.port 0 13 } in
            let (s3, again, still, fit3) = altera_wait p bound fuel d lt s2 in
            (
              record s3 { port = p.iowrite s3.port 0 ch },
              rw (waited, feed, again) refl,
              rw feed (
                  d.write_sends s3.port ch fit3
                  ∙ ap (λ l. l ++ ch ∷ [])
                      (still ∙ d.write_sends s1.port 13 fit ∙ ap (λ l. l ++ 13 ∷ []) same)
                  ∙ append_assoc (d.sent s.port) (13 ∷ []) (ch ∷ [])
                  ∙ ap (λ x. d.sent s.port ++ 13 ∷ x ∷ []) (ground arith)),
            )
      ];
}

-- On a PC16550D, which may lose what is written when it is not ready, and is ready after at most `bound` reads of its status, with more fuel than
-- that, `uart_puts` ends, and sends exactly the characters in front of the first zero, in order.
pub uart_puts-malta :
    (p : Port) (bound fuel : ℕ) (d : Sends p 0x28 0x20 bound) (text rest : List ℕ) (s : p.State)
    → bound < fuel
    → HasNoZero text
    → (s' : p.State) × (uart_puts (malta p) fuel s (text ++ 0 ∷ rest) ≡ ok s')
      × (d.sent s' ≡ d.sent s ++ text)
unfolding malta_line
uart_puts-malta p bound fuel d text rest s lt no_zero =
    let (s', done, all) =
      puts-log (malta p) fuel malta_encode (malta_line p bound fuel d lt) text rest s no_zero in
    (s', done, all ∙ ap (λ l. d.sent s ++ l) (encoded-malta text))

-- On a JTAG UART that sends what is written while it has space, and has space again after at most
-- `bound` reads of its control register, with more fuel than that, `uart_puts` ends, and sends
-- exactly the characters in front of the first zero, in order, with a carriage return in front of
-- each line feed.
pub uart_puts-altera :
    (p : Port) (bound fuel : ℕ) (d : Sends p 4 0xffff0000 bound) (text rest : List ℕ) (s : Altera p)
    → bound < fuel
    → HasNoZero text
    → (s' : Altera p) × (uart_puts (altera p) fuel s (text ++ 0 ∷ rest) ≡ ok s')
      × (d.sent s'.port ≡ d.sent s.port ++ encoded altera_encode text)
unfolding altera_line
uart_puts-altera p bound fuel d text rest s lt no_zero =
    puts-log (altera p) fuel altera_encode (altera_line p bound fuel d lt) text rest s no_zero
