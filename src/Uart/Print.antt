-- ===== src/Uart/Print.antt =====
-- `_write`: the bytes of printf, with a CR before each bare LF, go out in order.
pub mod Crlf
use stm32f746g_disco.Prelude.{
  ℕ, zero, suc, ◌+◌, ◌-◌, ◌*◌, ◌/◌, ◌%◌, ◌^◌, ◌≤◌, ◌<◌, min, max, bit_and, bit_or, bit_xor, ◌≡◌,
  refl, sym, ap, ap₂, ◌∙◌, subst, ◌≢◌, ◌↔◌, ◌⊎◌, inl, inr, Bool, true, false, not, ◌&&◌, ◌||◌,
  Option, none, some, List, [], ◌∷◌, ◌++◌, map, append_assoc, append-nil, arith, ltb, leb, ◌==◌,
  if◌then◌else◌, eq→==, ne→==, ==_iff, lt→ltb, le→ltb, tests, leb→le, leb→lt, ltb→lt, ltb→le, ==→eq,
  ==→ne, Bool-cases, Option-cases, some_eq, absurd_bool, some-none, length, get_elem?, get_or, set,
  take, drop, replicate, length-append, length-set, length-take, length-drop, length-replicate,
  take-append-drop, get_or-set_self, get_or-set_ne, Bytes, codes, bytes_eq, bytes_eq_iff,
}
use stm32f746g_disco.Uart.{write_spin_max}
use stm32f746g_disco.Uart.Machine.{
  Machine, Irq, Spin, complete, putc_on, interrupted, tx_putc_spin, spin_on, put_cr, write_loop,
}
use stm32f746g_disco.Uart.Invariant.{IsLive, stream}
use stm32f746g_disco.Uart.Stream.{Kin, IsBusy, Spun, putc_on-Spun, Completed, complete-Completed}
use stm32f746g_disco.Uart.Ring.Queue.{contents, room, length-contents, count_lt}

-- The console with the handle `h` runs.
abbrev pub IsOn : ℕ → Machine → Type 0
IsOn h m = (m.uart.huart ≡ some h) × IsLive m × (2 ≤ m.uart.tx_ring.size)

-- what the HAL promises where nothing is wedged: it takes every transmission
abbrev pub Accepts : (ℕ → Irq) → Type 0
Accepts irq = (t : ℕ) → ((irq t).restart ≡ true) × ((irq t).start ≡ true)

-- and completes one within the spins of `_write`
abbrev pub IsPrompt : (ℕ → Irq) → Type 0
IsPrompt irq = (t : ℕ) → (k : ℕ) × (k ≤ write_spin_max) × ((irq (t + k)).fires ≡ true)

-- One round: what the interrupts and the put leave.
record Round (irq : ℕ → Irq) (h b t : ℕ) (m : Machine) (p : Bool × Machine) : Type 0 where
  on : IsOn h p.1
  out : p.0 ≡ true → stream p.1 ≡ stream m ++ (b ∷ [])
  kept : p.0 ≡ false → stream p.1 ≡ stream m
  busy : Accepts irq → IsBusy m → IsBusy p.1
  lively : Accepts irq → IsBusy m → (irq t).fires ≡ true → p.0 ≡ true

-- what the round needs of the machine when the interrupts are over
record Ready (irq : ℕ → Irq) (h t : ℕ) (m n : Machine) : Type 0 where
  on : IsOn h n
  same : stream n ≡ stream m
  busy : Accepts irq → IsBusy m → IsBusy n
  open_up :
      Accepts irq
      → IsBusy m
      → (irq t).fires ≡ true
      → length (contents n.uart.tx_ring) < room n.uart.tx_ring

below_room : (m : Machine) → IsLive m → length (contents m.uart.tx_ring) ≤ room m.uart.tx_ring
below_room m i = omega (arith, length-contents m.uart.tx_ring, count_lt m.uart.tx_ring i.ring)

interrupted-Ready :
    (irq : ℕ → Irq) (h t : ℕ) (m : Machine) (f : Bool)
    → (irq t).fires ≡ f
    → IsOn h m
    → Ready irq h t m (if f then complete h (irq t).restart m else m)
interrupted-Ready irq h t m false e i = record {
  on = i;
  same = refl;
  busy = λ _ b. b;
  open_up = λ _ _ f. absurd_bool (sym e ∙ f);
}
interrupted-Ready irq h t m true e i = record {
  on = (c.kin.0 ∙ i.0, c.live, omega (arith, c.kin.1, i.2));
  same = c.same;
  busy = λ a b. c.busy (a t).0 b;
  open_up = λ a b _. elim (Option-cases m.flight) [
    | inl n ↦ omega (arith, c.no_longer, ap length (b n), c.kin.1, i.2)
    | inr s ↦ omega (arith, c.shorter (λ n. some-none (sym s.1 ∙ n)), below_room m i.1, c.kin.1)
  ];
}
  where
    c : Completed (irq t).restart m (complete h (irq t).restart m)
    c = complete-Completed h (irq t).restart m i.0 i.1

round_after :
    (irq : ℕ → Irq) (h b t : ℕ) (m n : Machine)
    → Ready irq h t m n
    → Round irq h b t m (putc_on (irq t).start b n)
round_after irq h b t m n r = record {
  on = (s.kin.0 ∙ r.on.0, s.live, omega (arith, s.kin.1, r.on.2));
  out = λ e. s.out e ∙ ap (λ xs. xs ++ (b ∷ [])) r.same;
  kept = λ e. (s.full e).0 ∙ r.same;
  busy = λ a _. s.busy (a t).1;
  lively = λ a q f. elim (Bool-cases (putc_on (irq t).start b n).0) [
    | inl e ↦ e
    | inr e ↦ absurd (omega (arith, (s.full e).1, r.open_up a q f))
  ];
}
  where
    s : Spun (irq t).start b n (putc_on (irq t).start b n)
    s = putc_on-Spun (irq t).start b n r.on.1

putc-Round :
    (irq : ℕ → Irq) (h b t : ℕ) (m : Machine)
    → IsOn h m
    → Round irq h b t m (putc_on (irq t).start b (interrupted irq h t m))
putc-Round irq h b t m i =
    round_after irq h b t m (interrupted irq h t m)
      (interrupted-Ready irq h t m (irq t).fires refl i)

-- What a spin leaves. One that gives up has put nothing.
pub record Spins (irq : ℕ → Irq) (h b t left : ℕ) (m : Machine) (p : Bool × Spin) : Type 0 where
  pub on : IsOn h p.1.machine
  pub out : p.0 ≡ true → stream p.1.machine ≡ stream m ++ (b ∷ [])
  pub kept : p.0 ≡ false → stream p.1.machine ≡ stream m
  pub fresh : p.0 ≡ true → p.1.left ≡ write_spin_max
  pub busy : Accepts irq → IsBusy m → IsBusy p.1.machine
  pub lively : Accepts irq → IsBusy m → (k : ℕ) → k ≤ left → (irq (t + k)).fires ≡ true → p.0 ≡ true

stored-Spins :
    (irq : ℕ → Irq) (h b t left : ℕ) (m n : Machine)
    → Round irq h b t m (true, n)
    → Spins irq h b t left m (true, record { time = suc t; left = write_spin_max; machine = n })
stored-Spins irq h b t left m n r = record {
  on = r.on;
  out = r.out;
  kept = λ e. absurd_bool (sym e);
  fresh = λ _. refl;
  busy = r.busy;
  lively = λ _ _ _ _ _. refl;
}

wedged-Spins :
    (irq : ℕ → Irq) (h b t : ℕ) (m n : Machine)
    → Round irq h b t m (false, n)
    → Spins irq h b t 0 m (false, record { time = suc t; left = 0; machine = n })
wedged-Spins irq h b t m n r = record {
  on = r.on;
  out = λ e. absurd_bool e;
  kept = r.kept;
  fresh = λ e. absurd_bool e;
  busy = r.busy;
  lively = λ a q k l f. r.lively a q (ap (λ x. (irq x).fires) (omega arith) ∙ f);
}

again-Spins :
    (irq : ℕ → Irq) (h b t left : ℕ) (m n : Machine) (p : Bool × Spin)
    → Round irq h b t m (false, n)
    → Spins irq h b (suc t) left n p
    → Spins irq h b t (suc left) m p
again-Spins irq h b t left m n p r s = record {
  on = s.on;
  out = λ e. s.out e ∙ ap (λ xs. xs ++ (b ∷ [])) (r.kept refl);
  kept = λ e. s.kept e ∙ r.kept refl;
  fresh = s.fresh;
  busy = λ a q. s.busy a (r.busy a q);
  lively = later;
}
  where
    later :
        Accepts irq → IsBusy m → (k : ℕ) → k ≤ suc left → (irq (t + k)).fires ≡ true → p.0 ≡ true
    later a q zero l f = absurd_bool (r.lively a q (ap (λ x. (irq x).fires) (omega arith) ∙ f))
    later a q (suc k) l f =
        s.lively a (r.busy a q) k (omega arith) (ap (λ x. (irq x).fires) (omega arith) ∙ f)

pub spin-Spins :
    (irq : ℕ → Irq) (h b t left : ℕ) (m : Machine)
    → IsOn h m
    → Spins irq h b t left m (tx_putc_spin irq h b t left m)
unfolding tx_putc_spin
spin-Spins irq h b t zero m i =
    ended (putc_on (irq t).start b (interrupted irq h t m)) (putc-Round irq h b t m i)
  where
    ended :
        (p : Bool × Machine)
        → Round irq h b t m p
        → Spins irq h b t 0 m (elim p.0 as (λ x. Bool × Spin) [
          | false ↦ (false, record { time = suc t; left = 0; machine = p.1 })
          | true ↦ (true, record { time = suc t; left = write_spin_max; machine = p.1 })
        ])
    ended (true, n) r = stored-Spins irq h b t 0 m n r
    ended (false, n) r = wedged-Spins irq h b t m n r
spin-Spins irq h b t (suc left) m i =
    turned (λ n k. spin-Spins irq h b (suc t) left n k)
      (putc_on (irq t).start b (interrupted irq h t m)) (putc-Round irq h b t m i)
  where
    turned :
        ((n : Machine)
          → IsOn h n
          → Spins irq h b (suc t) left n (tx_putc_spin irq h b (suc t) left n))
        → (p : Bool × Machine) → Round irq h b t m p
        → Spins irq h b t (suc left) m (elim p.0 as (λ x. Bool × Spin) [
          | false ↦ tx_putc_spin irq h b (suc t) left p.1
          | true ↦ (true, record { time = suc t; left = write_spin_max; machine = p.1 })
        ])
    turned rest (true, n) r = stored-Spins irq h b t (suc left) m n r
    turned rest (false, n) r =
        again-Spins irq h b t left m n (tx_putc_spin irq h b (suc t) left n) r (rest n r.on)
