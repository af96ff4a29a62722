-- ===== src/Uart/Ring.antt =====
-- shell/backend/cli_uart_ring.h: the byte ring of the UART backend. A function that changes `*r`
-- returns the new ring; `buf` is the memory that the pointer stands for, from index 0 on.
pub mod Index
pub mod Refine
pub mod Run
pub mod Queue
use stm32f746g_disco.Prelude.{
  ℕ, zero, suc, ◌+◌, ◌-◌, ◌*◌, ◌/◌, ◌%◌, ◌^◌, ◌≤◌, ◌<◌, min, max, bit_and, bit_or, bit_xor, ◌≡◌,
  refl, sym, ap, ap₂, ◌∙◌, subst, ◌≢◌, ◌↔◌, ◌⊎◌, inl, inr, Bool, true, false, not, ◌&&◌, ◌||◌,
  Option, none, some, List, [], ◌∷◌, ◌++◌, map, append_assoc, append-nil, arith, ltb, leb, ◌==◌,
  if◌then◌else◌, eq→==, ne→==, ==_iff, lt→ltb, le→ltb, tests, leb→le, leb→lt, ltb→lt, ltb→le, ==→eq,
  ==→ne, Bool-cases, Option-cases, some_eq, absurd_bool, some-none, length, get_elem?, get_or, set,
  take, drop, replicate, length-append, length-set, length-take, length-drop, length-replicate,
  take-append-drop, get_or-set_self, get_or-set_ne, Bytes, codes, bytes_eq, bytes_eq_iff,
}
use stm32f746g_disco.Memory.{write, write_self, write_ne}

-- `struct cli_uart_ring`
pub record UartRing : Type 0 where
  pub buf : ℕ → ℕ
  pub size : ℕ
  pub head : ℕ
  pub tail : ℕ

abbrev pub cli_uart_ring_init : (ℕ → ℕ) → ℕ → UartRing
cli_uart_ring_init buf size = record { buf = buf; size = size; head = 0; tail = 0 }

abbrev pub cli_uart_ring_count : UartRing → ℕ
cli_uart_ring_count r = if leb r.tail r.head then r.head - r.tail else r.size - r.tail + r.head

abbrev pub cli_uart_ring_free : UartRing → ℕ
cli_uart_ring_free r = r.size - 1 - cli_uart_ring_count r

-- the stores of `cli_uart_ring_put`, at a new head
abbrev pub store : UartRing → ℕ → ℕ → UartRing
store r b next = record r { buf = write r.buf r.head b; head = next }

unfoldable pub cli_uart_ring_put : UartRing → ℕ → Bool × UartRing
cli_uart_ring_put r b =
    if (r.head + 1) % r.size == r.tail
    then (false, r)
    else (true, store r b ((r.head + 1) % r.size))

-- the byte that goes out through `*b`, if there is one
unfoldable pub cli_uart_ring_get : UartRing → Option ℕ × UartRing
cli_uart_ring_get r =
    if r.tail == r.head
    then (none, r)
    else (some (r.buf r.tail), record r { tail = (r.tail + 1) % r.size })

-- The list is the `n` bytes at `d`.
unfoldable pub cli_uart_ring_put_buf : UartRing → Bytes → ℕ × UartRing
cli_uart_ring_put_buf r [] = (0, r)
cli_uart_ring_put_buf r (b ∷ d) =
    let (stored, r') = cli_uart_ring_put r b in
    elim stored [
      | false ↦ (0, r)
      | true ↦ (suc (cli_uart_ring_put_buf r' d).0, (cli_uart_ring_put_buf r' d).1)
    ]

-- the bytes copied to `d`
unfoldable pub cli_uart_ring_get_buf : UartRing → ℕ → Bytes × UartRing
cli_uart_ring_get_buf r zero = ([], r)
cli_uart_ring_get_buf r (suc n) =
    let (got, r') = cli_uart_ring_get r in
    elim got [
      | none ↦ ([], r)
      | some b ↦ (b ∷ (cli_uart_ring_get_buf r' n).0, (cli_uart_ring_get_buf r' n).1)
    ]

-- the length of the run; `*p` is the address of index `tail`
abbrev pub cli_uart_ring_contig : UartRing → ℕ
cli_uart_ring_contig r = if leb r.tail r.head then r.head - r.tail else r.size - r.tail

abbrev pub cli_uart_ring_advance_tail : UartRing → ℕ → UartRing
cli_uart_ring_advance_tail r n = record r { tail = (r.tail + n) % r.size }
