-- ===== src/Uart/Machine.antt =====
-- The transport with the hardware that sends: the HAL reads the bytes that were handed to it where
-- they stand, and calls back when the last one is out.
use stm32f746g_disco.Prelude.{
  ℕ, zero, suc, Bool, true, false, not, ◌&&◌, none, some, [], ◌∷◌, ◌++◌, ◌==◌, if◌then◌else◌, Bytes,
}
use stm32f746g_disco.Memory.{bytes_at}
use stm32f746g_disco.Uart.{
  CliUart, Handed, uart_write, tx_cplt_callback, putc_round, write_spin_max,
}

-- `flight` is the transmission that the HAL is about; `wire` has the bytes that it has sent.
pub record Machine : Type 0 where
  pub uart : CliUart
  pub flight : Handed
  pub wire : Bytes

-- A transmission that was handed over takes the place of the last one.
abbrev pub hand_over : Machine → CliUart × Handed → Machine
hand_over m (u, none) = record m { uart = u }
hand_over m (u, some j) = record m { uart = u; flight = some j }

-- The HAL has sent the bytes of the transmission, and calls back for the handle `h`.
abbrev pub sent_from : Machine → ℕ × ℕ → Machine
sent_from m (p, n) = record m { flight = none; wire = m.wire ++ bytes_at m.uart.tx_ring.buf p n }

abbrev pub call_back : ℕ → Bool → Machine → Handed → Machine
call_back h ok m none = m
call_back h ok m (some j) = hand_over (sent_from m j) (tx_cplt_callback h ok m.uart)

abbrev pub complete : ℕ → Bool → Machine → Machine
complete h ok m = call_back h ok m m.flight

-- `uart_write` from the shell
unfoldable pub write_on : Bool → Bytes → Machine → ℕ × Machine
write_on ok d m = let (acc, u, handed) = uart_write ok d m.uart in (acc, hand_over m (u, handed))

-- a round of `tx_putc_spin`
unfoldable pub putc_on : Bool → ℕ → Machine → Bool × Machine
putc_on ok b m =
    let (stored, u, handed) = putc_round ok b m.uart in (stored, hand_over m (u, handed))

-- what happens between two rounds of a spin, and what the HAL answers in the next
pub record Irq : Type 0 where
  pub fires : Bool
  pub restart : Bool
  pub start : Bool

-- a call of `_write` on its way: the rounds so far, CLI_UART_WRITE_SPIN_MAX less `*stall`, the machine
pub record Spin : Type 0 where
  pub time : ℕ
  pub left : ℕ
  pub machine : Machine

-- the interrupts before round `t`
abbrev pub interrupted : (ℕ → Irq) → ℕ → ℕ → Machine → Machine
interrupted irq h t m = if (irq t).fires then complete h (irq t).restart m else m

-- `tx_putc_spin` on the console with handle `h`
unfoldable pub tx_putc_spin : (ℕ → Irq) → ℕ → ℕ → ℕ → ℕ → Machine → Bool × Spin
tx_putc_spin irq h b t zero m =
    let (stored, m') = putc_on (irq t).start b (interrupted irq h t m) in
    elim stored [
      | true ↦ (true, record { time = suc t; left = write_spin_max; machine = m' })
      | false ↦ (false, record { time = suc t; left = 0; machine = m' })
    ]
tx_putc_spin irq h b t (suc left) m =
    let (stored, m') = putc_on (irq t).start b (interrupted irq h t m) in
    elim stored [
      | true ↦ (true, record { time = suc t; left = write_spin_max; machine = m' })
      | false ↦ tx_putc_spin irq h b (suc t) left m'
    ]

abbrev pub spin_on : (ℕ → Irq) → ℕ → ℕ → Spin → Bool × Spin
spin_on irq h b s = tx_putc_spin irq h b s.time s.left s.machine

-- the CR that goes before a bare LF
abbrev pub put_cr : (ℕ → Irq) → ℕ → ℕ → ℕ → Spin → Bool × Spin
put_cr irq h prev b s = elim (b == 10 && not (prev == 13)) [
  | false ↦ (true, s)
  | true ↦ spin_on irq h 13 s
]

-- the loop of `_write` over the bytes, to the last or to the first that is given up
unfoldable pub write_loop : (ℕ → Irq) → ℕ → ℕ → Bytes → Spin → Bool × Spin
write_loop irq h prev [] s = (true, s)
write_loop irq h prev (b ∷ d) s =
    let (first, s') = put_cr irq h prev b s in
    elim first [
      | false ↦ (false, s')
      | true ↦
          let (second, s'') = spin_on irq h b s' in
          elim second [ false ↦ (false, s'') | true ↦ write_loop irq h b d s'' ]
    ]
