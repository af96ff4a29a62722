-- ===== src/Uart.antt =====
-- shell/backend/cli_backend_uart.c: the UART transport of the shell. The outcome of a call of the HAL
-- is an argument: `true` for HAL_OK. What runs with the interrupts disabled is one step.
pub mod Ring
pub mod Machine
pub mod Invariant
pub mod Stream
pub mod Receive
mod Tests
pub mod Drain
pub mod Print
use stm32f746g_disco.Prelude.{
  ℕ, zero, suc, ◌+◌, ◌-◌, ◌*◌, ◌/◌, ◌%◌, ◌^◌, ◌≤◌, ◌<◌, min, max, bit_and, bit_or, bit_xor, ◌≡◌,
  refl, sym, ap, ap₂, ◌∙◌, subst, ◌≢◌, ◌↔◌, ◌⊎◌, inl, inr, Bool, true, false, not, ◌&&◌, ◌||◌,
  Option, none, some, List, [], ◌∷◌, ◌++◌, map, append_assoc, append-nil, arith, ltb, leb, ◌==◌,
  if◌then◌else◌, eq→==, ne→==, ==_iff, lt→ltb, le→ltb, tests, leb→le, leb→lt, ltb→lt, ltb→le, ==→eq,
  ==→ne, Bool-cases, Option-cases, some_eq, absurd_bool, some-none, length, get_elem?, get_or, set,
  take, drop, replicate, length-append, length-set, length-take, length-drop, length-replicate,
  take-append-drop, get_or-set_self, get_or-set_ne, Bytes, codes, bytes_eq, bytes_eq_iff,
}
use stm32f746g_disco.Uart.Ring.{
  UartRing, cli_uart_ring_init, cli_uart_ring_put, cli_uart_ring_put_buf, cli_uart_ring_get_buf,
  cli_uart_ring_contig, cli_uart_ring_advance_tail,
}

abbrev pub u16 : ℕ → ℕ
u16 n = n % 2 ^ 16

abbrev pub u32 : ℕ → ℕ
u32 n = n % 2 ^ 32

-- CLI_UART_RX_BUFFER_SIZE, CLI_UART_TX_BUFFER_SIZE, CLI_UART_WRITE_SPIN_MAX
abbrev pub rx_buffer_size : ℕ
rx_buffer_size = 256

abbrev pub tx_buffer_size : ℕ
tx_buffer_size = 512

abbrev pub write_spin_max : ℕ
write_spin_max = 1000000

-- `struct cli_uart`; `huart` is a handle, `none` for NULL. `dropped` is `sh->rx_dropped` of the
-- instance that `sh` points at, `none` where that is NULL.
pub record CliUart : Type 0 where
  pub huart : Option ℕ
  pub dropped : Option ℕ
  pub rx_ring : UartRing
  pub rx_byte : ℕ
  pub tx_ring : UartRing
  pub tx_in_flight : Bool
  pub tx_chunk : ℕ
  pub enabled : Bool
  pub rx_overrun : ℕ
  pub rx_rearm_fail : ℕ

-- a call of HAL_UART_Transmit_IT that returned HAL_OK: the index of its first byte and its length
abbrev pub Handed : Type 0
Handed = Option (ℕ × ℕ)

-- `tx_start_locked`, with what it handed to the HAL
abbrev pub tx_start_locked : Bool → CliUart → CliUart × Handed
tx_start_locked ok u =
    let run = cli_uart_ring_contig u.tx_ring in
    if u.tx_in_flight
    then (u, none)
    else (if run == 0
        then (u, none)
        else (if not ok then (u, none) else (
          record u { tx_in_flight = true; tx_chunk = u16 run },
          some (u.tx_ring.tail, u16 run),
        )))

-- `uart_init` with the instance that owns the transport and the memory of the two buffers; `none` is
-- the -1. On success the context is the console.
abbrev pub uart_init : Option ℕ → (ℕ → ℕ) → (ℕ → ℕ) → CliUart → Option CliUart
uart_init sh rx_buf tx_buf u = elim u.huart [
  | none ↦ none
  | some h ↦ some (record {
    huart = some h;
    dropped = sh;
    rx_ring = cli_uart_ring_init rx_buf rx_buffer_size;
    rx_byte = 0;
    tx_ring = cli_uart_ring_init tx_buf tx_buffer_size;
    tx_in_flight = false;
    tx_chunk = 0;
    enabled = false;
    rx_overrun = 0;
    rx_rearm_fail = 0;
  })
]

-- `uart_enable` with the outcome of the first HAL_UART_Receive_IT; `none` is the -1.
abbrev pub uart_enable : Bool → CliUart → Option CliUart
uart_enable ok u = if ok then some (record u { enabled = true }) else none

-- `uart_write`: the count, the context and what went to the HAL
pub uart_write : Bool → Bytes → CliUart → ℕ × CliUart × Handed
uart_write ok d u =
    let (acc, r) = cli_uart_ring_put_buf u.tx_ring d in
    let (u', handed) = tx_start_locked ok (record u { tx_ring = r }) in (acc, u', handed)

-- `uart_read`: the bytes read
pub uart_read : ℕ → CliUart → Bytes × CliUart
uart_read n u = let (d, r) = cli_uart_ring_get_buf u.rx_ring n in (d, record u { rx_ring = r })

abbrev pub uart_uninit : CliUart → CliUart
uart_uninit u = record u { enabled = false; tx_in_flight = false; tx_chunk = 0 }

-- `u != NULL && huart == u->huart` for the console `u`
abbrev pub is_console : ℕ → CliUart → Bool
is_console h u = elim u.huart [ none ↦ false | some k ↦ h == k ]

-- `sh->rx_dropped++`
abbrev pub count_drop : CliUart → CliUart
count_drop u = record u { dropped = elim u.dropped [ none ↦ none | some n ↦ some (u32 (n + 1)) ] }

-- the receive that is armed again, with its outcome
abbrev pub rearm : Bool → CliUart → CliUart
rearm ok u = if ok then u else record u { rx_rearm_fail = u32 (u.rx_rearm_fail + 1) }

abbrev pub keep_byte : CliUart → Bool × UartRing → CliUart
keep_byte u (true, r) = record u { rx_ring = r }
keep_byte u (false, r) = count_drop u

-- `HAL_UART_RxCpltCallback`, with a byte landed in `rx_byte`
pub rx_cplt_callback : ℕ → Bool → CliUart → CliUart
rx_cplt_callback h ok u =
    if not (is_console h u)
    then u
    else rearm ok (keep_byte u (cli_uart_ring_put u.rx_ring u.rx_byte))

-- `HAL_UART_TxCpltCallback`
pub tx_cplt_callback : ℕ → Bool → CliUart → CliUart × Handed
tx_cplt_callback h ok u =
    if not (is_console h u)
    then (u, none)
    else tx_start_locked ok (record u {
      tx_ring = cli_uart_ring_advance_tail u.tx_ring u.tx_chunk;
      tx_chunk = 0;
      tx_in_flight = false;
    })

-- `HAL_UART_ErrorCallback`: whether the error is an overrun, and whether the receive has ended
abbrev pub error_callback : ℕ → Bool → Bool → Bool → CliUart → CliUart
error_callback h ore ready ok u =
    let u' = if ore then record u { rx_overrun = u32 (u.rx_overrun + 1) } else u in
    if not (is_console h u) then u else (if ready then rearm ok u' else u')

-- one round of `tx_putc_spin`
pub putc_round : Bool → ℕ → CliUart → Bool × CliUart × Handed
putc_round ok b u =
    let (stored, r) = cli_uart_ring_put u.tx_ring b in
    let (u', handed) = tx_start_locked ok (record u { tx_ring = r }) in (stored, u', handed)
