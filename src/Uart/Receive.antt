-- ===== src/Uart/Receive.antt =====
-- The receiving side: the bytes that the shell reads are those that came, in order, less those that
-- found the ring full, which are counted.
use stm32f746g_disco.Prelude.{
  ℕ, ◌+◌, ◌-◌, ◌≡◌, refl, sym, ap, ◌∙◌, ◌≢◌, Bool, true, false, some, List, [], ◌∷◌, ◌++◌,
  append_assoc, append-nil, arith, ◌==◌, if◌then◌else◌, eq→==, ne→==, length, take, drop, Bytes,
}
use stm32f746g_disco.Uart.{CliUart, u32, uart_read, rx_cplt_callback, rearm, keep_byte}
use stm32f746g_disco.Uart.Stream.{handled}
use stm32f746g_disco.Uart.Ring.{UartRing, cli_uart_ring_put, cli_uart_ring_get_buf}
use stm32f746g_disco.Uart.Ring.Queue.{
  IsRing, contents, room, Puts, put-Puts, Drains, get_buf-Drains,
}

-- a byte that the HAL has put into `rx_byte`, with the answer to the next receive, or a read
pub data RxEvent : Type 0 where
  landed : ℕ → Bool → RxEvent
  read_up : ℕ → RxEvent

abbrev pub rx_after : ℕ → RxEvent → CliUart → Bytes × CliUart
rx_after h (landed b ok) u = ([], rx_cplt_callback h ok (record u { rx_byte = b }))
rx_after h (read_up n) u = uart_read n u

-- the bytes that were read, and the transport
abbrev pub rx_run : ℕ → List RxEvent → CliUart → Bytes × CliUart
rx_run h [] u = ([], u)
rx_run h (e ∷ es) u =
    let (d, u') = rx_after h e u in let (rest, u'') = rx_run h es u' in (d ++ rest, u'')

-- The same on a queue of at most `c` bytes: what it holds, how many bytes it refuses, what is read.
pub record Inbox : Type 0 where
  pub held : Bytes
  pub lost : ℕ
  pub out : Bytes

abbrev pub inbox_after : ℕ → RxEvent → Inbox → Inbox
inbox_after c (landed b ok) q =
    if length q.held == c
    then record q { lost = q.lost + 1 }
    else record q { held = q.held ++ (b ∷ []) }
inbox_after c (read_up n) q = record q { held = drop n q.held; out = q.out ++ take n q.held }

abbrev pub inbox : ℕ → List RxEvent → Inbox → Inbox
inbox c [] q = q
inbox c (e ∷ es) q = inbox c es (inbox_after c e q)

-- The transport holds what the queue holds, and has counted as many drops.
pub record Mirrors (h c : ℕ) (u : CliUart) (q : Inbox) : Type 0 where
  pub handle : u.huart ≡ some h
  pub ring : IsRing u.rx_ring
  pub size : room u.rx_ring ≡ c
  pub held : contents u.rx_ring ≡ q.held
  pub drops : u.dropped ≡ some (u32 q.lost)

rearm-Mirrors :
    (h c : ℕ) (u : CliUart) (q : Inbox) (ok : Bool) → Mirrors h c u q → Mirrors h c (rearm ok u) q
rearm-Mirrors h c u q true m = m
rearm-Mirrors h c u q false m = record {
  handle = m.handle;
  ring = m.ring;
  size = m.size;
  held = m.held;
  drops = m.drops;
}

kept-Mirrors :
    (h c b : ℕ) (ok : Bool) (u : CliUart) (q : Inbox) (p : Bool × UartRing)
    → Mirrors h c u q
    → Puts u.rx_ring b p
    → Mirrors h c (keep_byte (record u { rx_byte = b }) p) (inbox_after c (landed b ok) q)
kept-Mirrors h c b ok u q (true, r) m p = rw (ne→== (length q.held) c room_left) (record {
  handle = m.handle;
  ring = p.0;
  size = ap (λ s. s - 1) p.1 ∙ m.size;
  held = p.2 ∙ ap (λ xs. xs ++ (b ∷ [])) m.held;
  drops = m.drops;
})
  where
    room_left : length q.held ≢ c
    room_left e = absurd (omega (arith, p.3, ap length m.held, m.size))
kept-Mirrors h c b ok u q (false, r) m p =
    rw (eq→== (length q.held) c (omega (arith, ap length m.held, p.1, m.size))) (record {
      handle = m.handle;
      ring = m.ring;
      size = m.size;
      held = m.held;
      drops = rw m.drops (ap some (omega arith));
    })

rx_after-Mirrors :
    (h c : ℕ) (e : RxEvent) (u : CliUart) (q : Inbox)
    → Mirrors h c u q
    → Mirrors h c (rx_after h e u).1 (inbox_after c e q)
      × (q.out ++ (rx_after h e u).0 ≡ (inbox_after c e q).out)
unfolding rx_cplt_callback uart_read
rx_after-Mirrors h c (landed b ok) u q m = (
  rw (handled h u m.handle) (
      rearm-Mirrors h c (keep_byte (record u { rx_byte = b }) (cli_uart_ring_put u.rx_ring b))
        (inbox_after c (landed b ok) q) ok
        (kept-Mirrors h c b ok u q (cli_uart_ring_put u.rx_ring b) m
          (put-Puts u.rx_ring b m.ring))),
  append-nil q.out ∙ none_out (length q.held == c),
)
  where
    none_out :
        (f : Bool)
        → q.out
          ≡ (if f
              then record q { lost = q.lost + 1 }
              else record q { held = q.held ++ (b ∷ []) }).out
    none_out true = refl
    none_out false = refl
rx_after-Mirrors h c (read_up n) u q m = (
  record {
    handle = m.handle;
    ring = d.ring;
    size = ap (λ s. s - 1) d.same_size ∙ m.size;
    held = d.left ∙ ap (drop n) m.held;
    drops = m.drops;
  },
  ap (λ xs. q.out ++ xs) (d.copied ∙ ap (take n) m.held),
)
  where
    d : Drains u.rx_ring n (cli_uart_ring_get_buf u.rx_ring n)
    d = get_buf-Drains n u.rx_ring m.ring

joined :
    (h c : ℕ) (xs ys zs ws : Bytes) (q : Inbox) (u : CliUart)
    → xs ++ ys ≡ ws
    → Mirrors h c u q × (ws ++ zs ≡ q.out)
    → Mirrors h c u q × (xs ++ (ys ++ zs) ≡ q.out)
joined h c xs ys zs ws q u e m = (m.0, sym (append_assoc xs ys zs) ∙ ap (λ vs. vs ++ zs) e ∙ m.1)

-- Through every sequence of received bytes and reads, the transport holds and has counted what a
-- bounded queue does that refuses the bytes for which it has no room, and the reads have given out
-- the same bytes.
pub rx_run-Mirrors :
    (h c : ℕ) (es : List RxEvent) (u : CliUart) (q : Inbox)
    → Mirrors h c u q
    → Mirrors h c (rx_run h es u).1 (inbox c es q)
      × (q.out ++ (rx_run h es u).0 ≡ (inbox c es q).out)
rx_run-Mirrors h c [] u q m = (m, append-nil q.out)
rx_run-Mirrors h c (e ∷ es) u q m =
    joined h c q.out (rx_after h e u).0 (rx_run h es (rx_after h e u).1).0 (inbox_after c e q).out
      (inbox c es (inbox_after c e q)) (rx_run h es (rx_after h e u).1).1
      (rx_after-Mirrors h c e u q m).1
      (rx_run-Mirrors h c es (rx_after h e u).1 (inbox_after c e q)
        (rx_after-Mirrors h c e u q m).0)
