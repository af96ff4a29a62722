-- ===== src/Uart/Drain.antt =====
-- The transport as it runs: every byte that a write takes goes out, once and in order.
use stm32f746g_disco.Prelude.{
  ℕ, zero, suc, ◌≤◌, ◌≡◌, refl, sym, ap, ◌∙◌, subst, inl, inr, Bool, true, Option, none, some, List,
  [], ◌∷◌, ◌++◌, append_assoc, append-nil, arith, Option-cases, some_eq, some-none, length, take,
  replicate, Bytes,
}
use stm32f746g_disco.Uart.{CliUart, uart_init, write_spin_max}
use stm32f746g_disco.Uart.Machine.{Machine, Irq, Spin, complete, write_on, write_loop}
use stm32f746g_disco.Uart.Invariant.{stream}
use stm32f746g_disco.Uart.Stream.{IsBusy, Wrote, write_on-Wrote, Completed, complete-Completed}
use stm32f746g_disco.Uart.Ring.Queue.{contents}
use stm32f746g_disco.Uart.Print.{IsOn, Accepts, IsPrompt}
use stm32f746g_disco.Uart.Print.Crlf.{crlf, IsPrefix, Emits, write_loop-Emits}

-- a write of the shell, or the end of a transmission, each with the answer of the HAL to the kick
pub data Event : Type 0 where
  wrote : Bool → Bytes → Event
  completed : Bool → Event

abbrev pub after : ℕ → Event → Machine → Machine
after h (wrote ok d) m = (write_on ok d m).1
after h (completed ok) m = complete h ok m

-- the bytes of the event that the transport reports as taken
abbrev pub taken : Event → Machine → Bytes
taken (wrote ok d) m = take (write_on ok d m).0 d
taken (completed ok) m = []

abbrev pub run : ℕ → List Event → Machine → Machine
run h [] m = m
run h (e ∷ es) m = run h es (after h e m)

abbrev pub all_taken : ℕ → List Event → Machine → Bytes
all_taken h [] m = []
all_taken h (e ∷ es) m = taken e m ++ all_taken h es (after h e m)

pub after-IsOn : (h : ℕ) (e : Event) (m : Machine) → IsOn h m → IsOn h (after h e m)
after-IsOn h (wrote ok d) m i = (w.kin.0 ∙ i.0, w.live, omega (arith, w.kin.1, i.2))
  where
    w : Wrote ok d (write_on ok d m).0 m (write_on ok d m).1
    w = write_on-Wrote ok d m i.1
after-IsOn h (completed ok) m i = (c.kin.0 ∙ i.0, c.live, omega (arith, c.kin.1, i.2))
  where
    c : Completed ok m (complete h ok m)
    c = complete-Completed h ok m i.0 i.1

after-stream :
    (h : ℕ) (e : Event) (m : Machine) → IsOn h m → stream (after h e m) ≡ stream m ++ taken e m
after-stream h (wrote ok d) m i = (write_on-Wrote ok d m i.1).out
after-stream h (completed ok) m i =
    (complete-Completed h ok m i.0 i.1).same ∙ sym (append-nil (stream m))

-- A console that `uart_init` has set up runs, and nothing waits.
pub init-IsOn :
    (h : ℕ) (sh : Option ℕ) (rx tx : ℕ → ℕ) (u v : CliUart)
    → u.huart ≡ some h
    → uart_init sh rx tx u ≡ some v
    → IsOn h (record { uart = v; flight = none; wire = [] })
init-IsOn h sh rx tx u v e s =
    subst (λ w. IsOn h (record { uart = w; flight = none; wire = [] })) (some_eq (rw e at s))
      (
        refl,
        record {
          ring = record { head_lt = omega arith; tail_lt = omega arith };
          fits = omega arith;
          flies = refl;
        },
        omega arith,
      )

-- However writes and completions interleave and whatever the HAL answers, the bytes on the wire and
-- behind them those in the ring are what was there, and behind that what the writes have taken.
pub run-stream :
    (h : ℕ) (es : List Event) (m : Machine)
    → IsOn h m
    → stream (run h es m) ≡ stream m ++ all_taken h es m
run-stream h [] m i = sym (append-nil (stream m))
run-stream h (e ∷ es) m i =
    run-stream h es (after h e m) (after-IsOn h e m i)
    ∙ ap (λ xs. xs ++ all_taken h es (after h e m)) (after-stream h e m i)
    ∙ append_assoc (stream m) (taken e m) (all_taken h es (after h e m))

-- Where bytes wait only while a transmission is under way and the HAL takes every transmission, as
-- many completions as there are bytes empty the ring: all bytes are on the wire.
pub drained :
    (h n : ℕ) (m : Machine)
    → IsOn h m
    → IsBusy m
    → length (contents m.uart.tx_ring) ≤ n
    → (run h (replicate n (completed true)) m).wire ≡ stream m
drained h zero m i b l =
    sym (
      ap (λ xs. m.wire ++ xs) (no_bytes (contents m.uart.tx_ring) (omega arith))
      ∙ append-nil m.wire)
  where
    no_bytes : (xs : Bytes) → length xs ≡ 0 → xs ≡ []
    no_bytes [] e = refl
    no_bytes (x ∷ xs) e = absurd (omega arith)
drained h (suc n) m i b l =
    drained h n (complete h true m) (after-IsOn h (completed true) m i) (c.busy refl b) fewer
    ∙ c.same
  where
    c : Completed true m (complete h true m)
    c = complete-Completed h true m i.0 i.1

    fewer : length (contents (complete h true m).uart.tx_ring) ≤ n
    fewer = elim (Option-cases m.flight) [
      | inl f ↦ omega (arith, c.no_longer, ap length (b f))
      | inr s ↦ omega (arith, c.shorter (λ f. some-none (sym s.1 ∙ f)), l)
    ]

-- Where the HAL takes every transmission and completes one within every CLI_UART_WRITE_SPIN_MAX
-- rounds, printf loses nothing: `_write` gets to its end, and the bytes with their CRs are behind
-- those written before.
pub write_loop-delivers :
    (irq : ℕ → Irq) (h prev : ℕ) (d : Bytes) (s : Spin)
    → IsOn h s.machine
    → IsBusy s.machine
    → s.left ≡ write_spin_max
    → Accepts irq
    → IsPrompt irq
    → ((write_loop irq h prev d s).0 ≡ true)
      × (stream (write_loop irq h prev d s).1.machine ≡ stream s.machine ++ crlf prev d)
write_loop-delivers irq h prev d s i b l a k =
    ((e.lively a k b l).0, e.out ∙ ap (λ xs. stream s.machine ++ xs) (e.whole (e.lively a k b l).0))
  where
    e : Emits irq h (crlf prev d) s (write_loop irq h prev d s)
    e = write_loop-Emits irq h prev d s i

-- Whatever the interrupts and the HAL do, what `_write` puts behind the bytes written before is a
-- first part of its bytes with their CRs.
pub write_loop-part :
    (irq : ℕ → Irq) (h prev : ℕ) (d : Bytes) (s : Spin)
    → IsOn h s.machine
    → (put : Bytes) × IsPrefix put (crlf prev d)
      × (stream (write_loop irq h prev d s).1.machine ≡ stream s.machine ++ put)
write_loop-part irq h prev d s i = (e.put, e.part, e.out)
  where
    e : Emits irq h (crlf prev d) s (write_loop irq h prev d s)
    e = write_loop-Emits irq h prev d s i
