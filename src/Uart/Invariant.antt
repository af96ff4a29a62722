-- ===== src/Uart/Invariant.antt =====
-- What holds of the transport between two steps, and what goes out in which order.
use stm32f746g_disco.Prelude.{
  ◌+◌, ◌^◌, ◌≤◌, ◌<◌, ◌≡◌, refl, sym, ◌∙◌, ◌≢◌, Bool, true, false, not, none, some, [], ◌++◌, arith,
  ◌==◌, if◌then◌else◌, ==→eq, ==→ne, absurd_bool, some-none, length, Bytes,
}
use stm32f746g_disco.Uart.{CliUart, Handed, u16, tx_start_locked}
use stm32f746g_disco.Uart.Machine.{Machine, hand_over}
use stm32f746g_disco.Uart.Ring.{UartRing, cli_uart_ring_contig}
use stm32f746g_disco.Uart.Ring.Queue.{IsRing, contents, length-contents, count_lt}
use stm32f746g_disco.Uart.Ring.Run.{contig-le, contig-fits, contig-zero}

-- The transmission under way, if any, is of the oldest bytes in the ring.
abbrev pub Flies : CliUart → Handed → Type 0
Flies u none = u.tx_in_flight ≡ false
Flies u (some (p, n)) =
    (u.tx_in_flight ≡ true)
    × (p ≡ u.tx_ring.tail)
    × (u.tx_chunk ≡ n)
    × (0 < n)
    × (n ≤ length (contents u.tx_ring))
    × (u.tx_ring.tail + n ≤ u.tx_ring.size)

pub record IsLive (m : Machine) : Type 0 where
  pub ring : IsRing m.uart.tx_ring
  pub fits : m.uart.tx_ring.size ≤ 2 ^ 16
  pub flies : Flies m.uart m.flight

-- the bytes sent, and behind them those that wait in the ring
abbrev pub stream : Machine → Bytes
stream m = m.wire ++ contents m.uart.tx_ring

-- What a kick does: the ring and the wire stay, and where the HAL accepts, only an empty ring idles.
pub record Kicked (ok : Bool) (m m' : Machine) : Type 0 where
  pub live : IsLive m'
  pub same : stream m' ≡ stream m
  pub ring_kept : m'.uart.tx_ring ≡ m.uart.tx_ring
  pub same_handle : m'.uart.huart ≡ m.uart.huart
  pub busy : ok ≡ true → m'.flight ≡ none → contents m.uart.tx_ring ≡ []

stays :
    (ok : Bool) (m : Machine)
    → IsLive m
    → (ok ≡ true → m.flight ≡ none → contents m.uart.tx_ring ≡ [])
    → Kicked ok m m
stays ok m i h = record { live = i; same = refl; ring_kept = refl; same_handle = refl; busy = h }

abbrev started : Machine → Machine
started m = record m {
  uart = record (m.uart) {
    tx_in_flight = true;
    tx_chunk = u16 (cli_uart_ring_contig m.uart.tx_ring);
  };
  flight = some (m.uart.tx_ring.tail, u16 (cli_uart_ring_contig m.uart.tx_ring));
}

u16_contig :
    (m : Machine)
    → IsLive m
    → u16 (cli_uart_ring_contig m.uart.tx_ring) ≡ cli_uart_ring_contig m.uart.tx_ring
u16_contig m i = omega (
  arith,
  contig-le m.uart.tx_ring i.ring,
  contig-fits m.uart.tx_ring i.ring,
  count_lt m.uart.tx_ring i.ring,
  i.fits,
)

start_new :
    (m : Machine)
    → IsLive m
    → (cli_uart_ring_contig m.uart.tx_ring == 0) ≡ false
    → Kicked true m (started m)
start_new m i e = record {
  live = record {
    ring = i.ring;
    fits = i.fits;
    flies = rw (u16_contig m i) (
      refl,
      refl,
      refl,
      omega (arith, ==→ne (cli_uart_ring_contig m.uart.tx_ring) 0 e),
      omega (arith, contig-le m.uart.tx_ring i.ring, length-contents m.uart.tx_ring),
      contig-fits m.uart.tx_ring i.ring,
    );
  };
  same = refl;
  ring_kept = refl;
  same_handle = refl;
  busy = λ _ n. absurd (some-none n);
}

flying : (u : CliUart) (f : Handed) → Flies u f → u.tx_in_flight ≡ true → f ≢ none
flying u none h e n = absurd_bool (sym h ∙ e)
flying u (some j) h e n = cc

start_cases :
    (ok : Bool) (m : Machine)
    → IsLive m
    → (f z : Bool) → m.uart.tx_in_flight ≡ f
    → (cli_uart_ring_contig m.uart.tx_ring == 0) ≡ z
    → Kicked ok m (
        hand_over m (
          if f
          then (m.uart, none)
          else (if z
              then (m.uart, none)
              else (if not ok then (m.uart, none) else ((started m).uart, (started m).flight)))))
start_cases ok m i true z e _ = stays ok m i (λ _ n. absurd (flying m.uart m.flight i.flies e n))
start_cases ok m i false true _ e =
    stays ok m i
      (λ _ _. contig-zero m.uart.tx_ring i.ring (==→eq (cli_uart_ring_contig m.uart.tx_ring) 0 e))
start_cases true m i false false _ e = start_new m i e
start_cases false m i false false _ e = stays false m i (λ e _. absurd_bool e)

pub start-Kicked :
    (ok : Bool) (m : Machine) → IsLive m → Kicked ok m (hand_over m (tx_start_locked ok m.uart))
start-Kicked ok m i =
    start_cases ok m i m.uart.tx_in_flight (cli_uart_ring_contig m.uart.tx_ring == 0) refl refl

-- The machine with another ring, in which the transmission under way still is of the oldest bytes.
abbrev pub with_ring : Machine → UartRing → Machine
with_ring m r = record m { uart = record (m.uart) { tx_ring = r } }

pub grown :
    (m : Machine) (r : UartRing)
    → IsLive m
    → IsRing r
    → r.size ≡ m.uart.tx_ring.size
    → r.tail ≡ m.uart.tx_ring.tail
    → length (contents m.uart.tx_ring) ≤ length (contents r)
    → IsLive (with_ring m r)
grown m r i k s t l = record {
  ring = k;
  fits = omega (arith, i.fits, s);
  flies = still m.flight i.flies;
}
  where
    still : (f : Handed) → Flies m.uart f → Flies (record (m.uart) { tx_ring = r }) f
    still none h = h
    still (some (p, n)) h =
        (h.0, h.1 ∙ sym t, h.2, h.3, omega (arith, h.4, l), omega (arith, h.5, s, t))
