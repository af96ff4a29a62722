-- ===== src/Uart/Tests.antt =====
-- A console with a ring of four slots.
use stm32f746g_disco.Prelude.{
  ℕ, ◌-◌, ◌≤◌, ◌≡◌, refl, true, false, none, some, List, [], ◌∷◌, ◌++◌, arith, length, replicate,
}
use stm32f746g_disco.Uart.{write_spin_max, uart_write, tx_cplt_callback}
use stm32f746g_disco.Uart.Ring.{
  UartRing, cli_uart_ring_init, cli_uart_ring_put_buf, cli_uart_ring_put,
}
use stm32f746g_disco.Uart.Ring.Refine.{
  Op, put_all, get_one, put_one, get_all, ask, ring_replies, queue_replies, init-replies,
}
use stm32f746g_disco.Uart.Ring.Queue.{contents}
use stm32f746g_disco.Memory.{write}
use stm32f746g_disco.Uart.Machine.{Machine, Irq, Spin, write_on, write_loop}
use stm32f746g_disco.Uart.Invariant.{stream}
use stm32f746g_disco.Uart.Stream.{write_on-Wrote}
use stm32f746g_disco.Uart.Print.{IsOn, IsPrompt}
use stm32f746g_disco.Uart.Receive.{
  RxEvent, landed, read_up, rx_run, Inbox, inbox, Mirrors, rx_run-Mirrors,
}
use stm32f746g_disco.Uart.Drain.{
  Event, wrote, completed, run, all_taken, after-IsOn, run-stream, drained, write_loop-delivers,
}

abbrev small : UartRing
small = record { buf = λ _. 0; size = 4; head = 3; tail = 3 }

abbrev console : Machine
console = record {
  uart = record {
    huart = some 1;
    dropped = some 0;
    rx_ring = small;
    rx_byte = 65;
    tx_ring = small;
    tx_in_flight = false;
    tx_chunk = 0;
    enabled = true;
    rx_overrun = 0;
    rx_rearm_fail = 0;
  };
  flight = none;
  wire = [];
}

console-IsOn : IsOn 1 console
console-IsOn = (
  refl,
  record {
    ring = record { head_lt = omega arith; tail_lt = omega arith };
    fits = omega arith;
    flies = refl;
  },
  omega arith,
)

abbrev calls : List Op
calls = put_all (1 ∷ 2 ∷ 3 ∷ 4 ∷ []) ∷ get_one ∷ put_one 5 ∷ put_one 6 ∷ ask ∷ get_all 9 ∷ []

init-replies_example :
    ring_replies calls (cli_uart_ring_init (λ _. 0) 4) ≡ queue_replies (4 - 1) calls []
init-replies_example = init-replies (λ _. 0) 4 calls (omega arith)

calls_answers :
    queue_replies 3 calls []
    ≡ (3, []) ∷ (1, 1 ∷ []) ∷ (1, []) ∷ (0, []) ∷ (3, []) ∷ (3, 2 ∷ 3 ∷ 5 ∷ []) ∷ []
calls_answers = refl

abbrev traffic : List Event
traffic =
    wrote true (1 ∷ 2 ∷ 3 ∷ 4 ∷ []) ∷ completed false ∷ wrote true (5 ∷ []) ∷ completed true ∷ []

run-stream_example : stream (run 1 traffic console) ≡ stream console ++ all_taken 1 traffic console
run-stream_example = run-stream 1 traffic console console-IsOn

traffic_taken : all_taken 1 traffic console ≡ 1 ∷ 2 ∷ 3 ∷ 5 ∷ []
unfolding write_on uart_write cli_uart_ring_put_buf cli_uart_ring_put tx_cplt_callback
traffic_taken = refl

-- the console when three bytes were written: the first is under way, at the end of the buffer
abbrev written : Machine
written = (write_on true (1 ∷ 2 ∷ 3 ∷ []) console).1

abbrev eager : ℕ → Irq
eager t = record { fires = true; restart = true; start = true }

eager-IsPrompt : IsPrompt eager
eager-IsPrompt t = (0, omega arith, refl)

abbrev fresh : Spin
fresh = record { time = 0; left = write_spin_max; machine = console }

write_loop-delivers_example :
    ((write_loop eager 1 0 (65 ∷ 10 ∷ []) fresh).0 ≡ true)
    × (stream (write_loop eager 1 0 (65 ∷ 10 ∷ []) fresh).1.machine ≡ 65 ∷ 13 ∷ 10 ∷ [])
write_loop-delivers_example =
    write_loop-delivers eager 1 0 (65 ∷ 10 ∷ []) fresh console-IsOn (λ _. refl) refl
      (λ t. (refl, refl)) eager-IsPrompt

written_few : length (contents written.uart.tx_ring) ≤ 3
unfolding write_on uart_write cli_uart_ring_put_buf cli_uart_ring_put
written_few = omega arith

drained_example : (run 1 (replicate 3 (completed true)) written).wire ≡ stream written
drained_example =
    drained 1 3 written (after-IsOn 1 (wrote true (1 ∷ 2 ∷ 3 ∷ [])) console console-IsOn)
      ((write_on-Wrote true (1 ∷ 2 ∷ 3 ∷ []) console console-IsOn.1).busy refl) written_few

written-stream : stream written ≡ 1 ∷ 2 ∷ 3 ∷ []
unfolding write_on uart_write cli_uart_ring_put_buf cli_uart_ring_put write
written-stream = refl

abbrev arrivals : List RxEvent
arrivals =
    landed 65 true
    ∷ landed 66 true
    ∷ landed 67 false
    ∷ landed 68 true
    ∷ read_up 2
    ∷ landed 69 true
    ∷ []

abbrev empty_inbox : Inbox
empty_inbox = record { held = []; lost = 0; out = [] }

rx_run-Mirrors_example :
    Mirrors 1 3 (rx_run 1 arrivals console.uart).1 (inbox 3 arrivals empty_inbox)
    × ([] ++ (rx_run 1 arrivals console.uart).0 ≡ (inbox 3 arrivals empty_inbox).out)
rx_run-Mirrors_example = rx_run-Mirrors 1 3 arrivals console.uart empty_inbox (record {
  handle = refl;
  ring = record { head_lt = omega arith; tail_lt = omega arith };
  size = refl;
  held = refl;
  drops = refl;
})

arrivals-inbox :
    inbox 3 arrivals empty_inbox ≡ record { held = 67 ∷ 69 ∷ []; lost = 1; out = 65 ∷ 66 ∷ [] }
arrivals-inbox = refl
