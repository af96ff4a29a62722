-- ===== src/Uart/Stream.antt =====
-- What each step does to the stream of bytes: those on the wire, and behind them those in the ring.
use stm32f746g_disco.Prelude.{
  ℕ, ◌+◌, ◌-◌, ◌≤◌, ◌<◌, min, ◌≡◌, refl, sym, ap, ap₂, ◌∙◌, subst, ◌≢◌, Bool, true, false, none,
  some, [], ◌∷◌, ◌++◌, append_assoc, arith, eq→==, absurd_bool, length, take, drop, length-append,
  length-drop, take-append-drop, Bytes,
}
use stm32f746g_disco.Memory.{bytes_at}
use stm32f746g_disco.Uart.{
  CliUart, Handed, tx_start_locked, uart_write, tx_cplt_callback, putc_round, is_console,
}
use stm32f746g_disco.Uart.Machine.{
  Machine, hand_over, sent_from, call_back, complete, write_on, putc_on,
}
use stm32f746g_disco.Uart.Invariant.{Flies, IsLive, stream, Kicked, start-Kicked, with_ring, grown}
use stm32f746g_disco.Uart.Ring.{
  UartRing, cli_uart_ring_put, cli_uart_ring_put_buf, cli_uart_ring_contig,
  cli_uart_ring_advance_tail,
}
use stm32f746g_disco.Uart.Ring.Queue.{
  contents, room, Puts, put-Puts, Stores, put_buf-Stores, length-contents,
}
use stm32f746g_disco.Uart.Ring.Run.{contig-all, contig-oldest, advance-IsRing, advance-drops}

-- The transport is the same, with a ring of the same size.
abbrev pub Kin : Machine → Machine → Type 0
Kin m m' = (m'.uart.huart ≡ m.uart.huart) × (m'.uart.tx_ring.size ≡ m.uart.tx_ring.size)

-- While bytes wait, a transmission is under way.
abbrev pub IsBusy : Machine → Type 0
IsBusy m = m.flight ≡ none → contents m.uart.tx_ring ≡ []

-- What a write takes goes to the end of the stream.
pub record Wrote (ok : Bool) (d : Bytes) (n : ℕ) (m m' : Machine) : Type 0 where
  pub live : IsLive m'
  pub kin : Kin m m'
  pub taken : n ≡ min (length d) (room m.uart.tx_ring - length (contents m.uart.tx_ring))
  pub out : stream m' ≡ stream m ++ take n d
  pub busy : ok ≡ true → IsBusy m'

pub write_on-Wrote :
    (ok : Bool) (d : Bytes) (m : Machine)
    → IsLive m
    → Wrote ok d (write_on ok d m).0 m (write_on ok d m).1
unfolding write_on uart_write
write_on-Wrote ok d m i = record {
  live = k.live;
  kin = (k.same_handle, ap (λ q. q.size) k.ring_kept ∙ s.same_size);
  taken = s.stored;
  out =
      k.same
      ∙ ap (λ xs. m.wire ++ xs) s.behind
      ∙ sym (append_assoc m.wire (contents m.uart.tx_ring) (take n d));
  busy = λ e f. ap contents k.ring_kept ∙ k.busy e f;
}
  where
    n : ℕ
    n = (cli_uart_ring_put_buf m.uart.tx_ring d).0

    r : UartRing
    r = (cli_uart_ring_put_buf m.uart.tx_ring d).1

    s : Stores m.uart.tx_ring d (n, r)
    s = put_buf-Stores d m.uart.tx_ring i.ring

    longer : length (contents m.uart.tx_ring) ≤ length (contents r)
    longer = omega (arith, ap length s.behind, length-append (contents m.uart.tx_ring) (take n d))

    k :
        Kicked ok
          (with_ring m r)
          (hand_over (with_ring m r) (tx_start_locked ok (with_ring m r).uart))
    k = start-Kicked ok (with_ring m r) (grown m r i s.ring s.same_size s.same_tail longer)

-- A byte that is put goes to the end of the stream, unless the ring is full.
pub record Spun (ok : Bool) (b : ℕ) (m : Machine) (p : Bool × Machine) : Type 0 where
  pub live : IsLive p.1
  pub kin : Kin m p.1
  pub busy : ok ≡ true → IsBusy p.1
  pub out : p.0 ≡ true → stream p.1 ≡ stream m ++ (b ∷ [])
  pub full :
      p.0 ≡ false
      → (stream p.1 ≡ stream m) × (length (contents m.uart.tx_ring) ≡ room m.uart.tx_ring)

Spun-case :
    (ok : Bool) (b : ℕ) (m : Machine)
    → IsLive m
    → (p : Bool × UartRing) → Puts m.uart.tx_ring b p
    → Spun ok b m (p.0, hand_over (with_ring m p.1) (tx_start_locked ok (with_ring m p.1).uart))
Spun-case ok b m i (true, r) h = record {
  live = k.live;
  kin = (k.same_handle, ap (λ q. q.size) k.ring_kept ∙ h.1);
  busy = λ e f. ap contents k.ring_kept ∙ k.busy e f;
  out = λ _.
      k.same
      ∙ ap (λ xs. m.wire ++ xs) h.2
      ∙ sym (append_assoc m.wire (contents m.uart.tx_ring) (b ∷ []));
  full = λ e. absurd_bool (sym e);
}
  where
    longer : length (contents m.uart.tx_ring) ≤ length (contents r)
    longer = omega (arith, ap length h.2, length-append (contents m.uart.tx_ring) (b ∷ []))

    k :
        Kicked ok
          (with_ring m r)
          (hand_over (with_ring m r) (tx_start_locked ok (with_ring m r).uart))
    k = start-Kicked ok (with_ring m r) (grown m r i h.0 h.1 h.4 longer)
Spun-case ok b m i (false, r) h =
    subst
      (λ q.
        Spun ok b m (false, hand_over (with_ring m q) (tx_start_locked ok (with_ring m q).uart)))
      (sym h.0) refused
  where
    k : Kicked ok m (hand_over m (tx_start_locked ok m.uart))
    k = start-Kicked ok m i

    refused : Spun ok b m (false, hand_over m (tx_start_locked ok m.uart))
    refused = record {
      live = k.live;
      kin = (k.same_handle, ap (λ q. q.size) k.ring_kept);
      busy = λ e f. ap contents k.ring_kept ∙ k.busy e f;
      out = λ e. absurd_bool e;
      full = λ _. (k.same, h.1);
    }

pub putc_on-Spun : (ok : Bool) (b : ℕ) (m : Machine) → IsLive m → Spun ok b m (putc_on ok b m)
unfolding putc_on putc_round
putc_on-Spun ok b m i =
    Spun-case ok b m i (cli_uart_ring_put m.uart.tx_ring b) (put-Puts m.uart.tx_ring b i.ring)

-- A completion keeps the stream; one of a transmission makes room.
pub record Completed (ok : Bool) (m m' : Machine) : Type 0 where
  pub live : IsLive m'
  pub kin : Kin m m'
  pub same : stream m' ≡ stream m
  pub busy : ok ≡ true → IsBusy m → IsBusy m'
  pub no_longer : length (contents m'.uart.tx_ring) ≤ length (contents m.uart.tx_ring)
  pub shorter :
      m.flight ≢ none → length (contents m'.uart.tx_ring) < length (contents m.uart.tx_ring)

pub handled : (h : ℕ) (u : CliUart) → u.huart ≡ some h → is_console h u ≡ true
handled h u e = rw (e, eq→== h h refl)

-- the transport when the callback has moved the tail
abbrev landed : Machine → ℕ × ℕ → Machine
landed m j = record (sent_from m j) {
  uart = record (m.uart) {
    tx_ring = cli_uart_ring_advance_tail m.uart.tx_ring m.uart.tx_chunk;
    tx_chunk = 0;
    tx_in_flight = false;
  };
}

oldest :
    (m : Machine) (n : ℕ)
    → IsLive m
    → n ≤ length (contents m.uart.tx_ring)
    → m.uart.tx_ring.tail + n ≤ m.uart.tx_ring.size
    → n ≤ cli_uart_ring_contig m.uart.tx_ring
oldest m n i a b =
    contig-all m.uart.tx_ring n i.ring (omega (arith, length-contents m.uart.tx_ring)) b

landed-IsLive : (m : Machine) (j : ℕ × ℕ) → IsLive m → Flies m.uart (some j) → IsLive (landed m j)
landed-IsLive m (p, n) i f = record {
  ring = advance-IsRing m.uart.tx_ring m.uart.tx_chunk i.ring (rw f.2 (oldest m n i f.4 f.5));
  fits = i.fits;
  flies = refl;
}

landed-left :
    (m : Machine) (j : ℕ × ℕ)
    → IsLive m
    → Flies m.uart (some j)
    → contents (landed m j).uart.tx_ring ≡ drop j.1 (contents m.uart.tx_ring)
landed-left m (p, n) i f =
    ap (λ c. contents (cli_uart_ring_advance_tail m.uart.tx_ring c)) f.2
    ∙ advance-drops m.uart.tx_ring n i.ring (oldest m n i f.4 f.5)

landed-stream :
    (m : Machine) (j : ℕ × ℕ) → IsLive m → Flies m.uart (some j) → stream (landed m j) ≡ stream m
landed-stream m (p, n) i f =
    ap₂ (λ xs ys. m.wire ++ xs ++ ys)
      (ap (λ q. bytes_at m.uart.tx_ring.buf q n) f.1
        ∙ contig-oldest m.uart.tx_ring n i.ring (oldest m n i f.4 f.5))
      (landed-left m (p, n) i f)
    ∙ append_assoc m.wire (take n c) (drop n c)
    ∙ ap (λ xs. m.wire ++ xs) (take-append-drop n c)
  where
    c : Bytes
    c = contents m.uart.tx_ring

complete_case :
    (h : ℕ) (ok : Bool) (m : Machine) (f : Handed)
    → m.uart.huart ≡ some h
    → m.flight ≡ f
    → IsLive m
    → Flies m.uart f
    → Completed ok m (call_back h ok m f)
unfolding tx_cplt_callback
complete_case h ok m none w e i f = record {
  live = i;
  kin = (refl, refl);
  same = refl;
  busy = λ _ b. b;
  no_longer = omega arith;
  shorter = λ n. absurd (n e);
}
complete_case h ok m (some (p, n)) w e i f = rw (handled h m.uart w) done
  where
    k :
        Kicked ok
          (landed m (p, n))
          (hand_over (landed m (p, n)) (tx_start_locked ok (landed m (p, n)).uart))
    k = start-Kicked ok (landed m (p, n)) (landed-IsLive m (p, n) i f)

    left :
        length (
          contents
            (hand_over (landed m (p, n)) (tx_start_locked ok (landed m (p, n)).uart)).uart.tx_ring)
        ≡ length (contents m.uart.tx_ring) - n
    left =
        ap (λ q. length (contents q)) k.ring_kept
        ∙ ap length (landed-left m (p, n) i f)
        ∙ length-drop n (contents m.uart.tx_ring)

    done : Completed ok m (hand_over (landed m (p, n)) (tx_start_locked ok (landed m (p, n)).uart))
    done = record {
      live = k.live;
      kin = (k.same_handle, ap (λ q. q.size) k.ring_kept);
      same = k.same ∙ landed-stream m (p, n) i f;
      busy = λ a _ b. ap contents k.ring_kept ∙ k.busy a b;
      no_longer = omega (arith, left);
      shorter = λ _. omega (arith, left, f.3, f.4);
    }

pub complete-Completed :
    (h : ℕ) (ok : Bool) (m : Machine)
    → m.uart.huart ≡ some h
    → IsLive m
    → Completed ok m (complete h ok m)
complete-Completed h ok m e i = complete_case h ok m m.flight e refl i i.flies
