-- ===== src/Uart/Print/Crlf.antt =====
-- What `_write` makes of the bytes of printf: each bare LF has a CR before it.
use stm32f746g_disco.Prelude.{
  ℕ, ◌≡◌, refl, sym, ap, ◌∙◌, Bool, true, false, not, ◌&&◌, [], ◌∷◌, ◌++◌, append_assoc, append-nil,
  arith, ◌==◌, absurd_bool, Bytes,
}
use stm32f746g_disco.Uart.{write_spin_max}
use stm32f746g_disco.Uart.Machine.{Irq, Spin, spin_on, put_cr, write_loop}
use stm32f746g_disco.Uart.Invariant.{stream}
use stm32f746g_disco.Uart.Stream.{IsBusy}
use stm32f746g_disco.Uart.Print.{IsOn, Accepts, IsPrompt, Spins, spin-Spins}

-- the CR before a byte that comes behind `prev`
abbrev pub cr_before : ℕ → ℕ → Bytes
cr_before prev b = elim (b == 10 && not (prev == 13)) [ false ↦ [] | true ↦ 13 ∷ [] ]

-- the bytes that a terminal should get
abbrev pub crlf : ℕ → Bytes → Bytes
crlf prev [] = []
crlf prev (b ∷ d) = cr_before prev b ++ (b ∷ crlf b d)

abbrev pub IsPrefix : Bytes → Bytes → Type 0
IsPrefix xs ys = (zs : Bytes) × (xs ++ zs ≡ ys)

-- Of the bytes `want` a part went out, in order, and all where the answer is true.
pub record Emits (irq : ℕ → Irq) (h : ℕ) (want : Bytes) (s : Spin) (p : Bool × Spin) : Type 0 where
  pub on : IsOn h p.1.machine
  pub put : Bytes
  pub out : stream p.1.machine ≡ stream s.machine ++ put
  pub part : IsPrefix put want
  pub whole : p.0 ≡ true → put ≡ want
  pub lively :
      Accepts irq
      → IsPrompt irq
      → IsBusy s.machine
      → s.left ≡ write_spin_max
      → (p.0 ≡ true) × IsBusy p.1.machine × (p.1.left ≡ write_spin_max)

nothing-Emits : (irq : ℕ → Irq) (h : ℕ) (s : Spin) → IsOn h s.machine → Emits irq h [] s (true, s)
nothing-Emits irq h s i = record {
  on = i;
  put = [];
  out = sym (append-nil (stream s.machine));
  part = ([], refl);
  whole = λ _. refl;
  lively = λ _ _ b l. (refl, b, l);
}

spin_on-Emits :
    (irq : ℕ → Irq) (h b : ℕ) (s : Spin)
    → IsOn h s.machine
    → Emits irq h (b ∷ []) s (spin_on irq h b s)
spin_on-Emits irq h b s i =
    of_spin (spin_on irq h b s) (spin-Spins irq h b s.time s.left s.machine i)
  where
    of_spin : (p : Bool × Spin) → Spins irq h b s.time s.left s.machine p → Emits irq h (b ∷ []) s p
    of_spin (true, s') w = record {
      on = w.on;
      put = b ∷ [];
      out = w.out refl;
      part = ([], refl);
      whole = λ _. refl;
      lively = λ a _ q _. (refl, w.busy a q, w.fresh refl);
    }
    of_spin (false, s') w = record {
      on = w.on;
      put = [];
      out = w.kept refl ∙ sym (append-nil (stream s.machine));
      part = (b ∷ [], refl);
      whole = λ e. absurd_bool e;
      lively = λ a k q l.
          absurd_bool (w.lively a q (k s.time).0 (omega (arith, (k s.time).1, l)) (k s.time).2);
    }

-- Where the first part is cut short, so is the whole.
cut-Emits :
    (irq : ℕ → Irq) (h : ℕ) (xs ys : Bytes) (s s' : Spin)
    → Emits irq h xs s (false, s')
    → Emits irq h (xs ++ ys) s (false, s')
cut-Emits irq h xs ys s s' e = record {
  on = e.on;
  put = e.put;
  out = e.out;
  part = (e.part.0 ++ ys, sym (append_assoc e.put e.part.0 ys) ∙ ap (λ zs. zs ++ ys) e.part.1);
  whole = λ z. absurd_bool z;
  lively = λ a k q l. absurd_bool (e.lively a k q l).0;
}

then-Emits :
    (irq : ℕ → Irq) (h : ℕ) (xs ys : Bytes) (s s' : Spin) (p : Bool × Spin)
    → Emits irq h xs s (true, s')
    → Emits irq h ys s' p
    → Emits irq h (xs ++ ys) s p
then-Emits irq h xs ys s s' p e f = record {
  on = f.on;
  put = xs ++ f.put;
  out =
      f.out
      ∙ ap (λ zs. zs ++ f.put) (e.out ∙ ap (λ zs. stream s.machine ++ zs) (e.whole refl))
      ∙ append_assoc (stream s.machine) xs f.put;
  part = (f.part.0, append_assoc xs f.put f.part.0 ∙ ap (λ zs. xs ++ zs) f.part.1);
  whole = λ z. ap (λ zs. xs ++ zs) (f.whole z);
  lively = λ a k q l. f.lively a k (e.lively a k q l).1 (e.lively a k q l).2;
}

put_cr-Emits :
    (irq : ℕ → Irq) (h prev b : ℕ) (s : Spin)
    → IsOn h s.machine
    → Emits irq h (cr_before prev b) s (put_cr irq h prev b s)
put_cr-Emits irq h prev b s i = either_way (b == 10 && not (prev == 13))
  where
    either_way :
        (c : Bool)
        → Emits irq h
            (elim c [ false ↦ [] | true ↦ 13 ∷ [] ])
            s
            (elim c as (λ x. Bool × Spin) [ false ↦ (true, s) | true ↦ spin_on irq h 13 s ])
    either_way false = nothing-Emits irq h s i
    either_way true = spin_on-Emits irq h 13 s i

-- Whatever the interrupts are, a part of the bytes with their CRs goes out in order behind what was
-- written before, and all of them where the loop runs to its end.
pub write_loop-Emits :
    (irq : ℕ → Irq) (h prev : ℕ) (d : Bytes) (s : Spin)
    → IsOn h s.machine
    → Emits irq h (crlf prev d) s (write_loop irq h prev d s)
unfolding write_loop
write_loop-Emits irq h prev [] s i = nothing-Emits irq h s i
write_loop-Emits irq h prev (b ∷ d) s i =
    first (λ s' k. write_loop-Emits irq h b d s' k) (put_cr irq h prev b s)
      (put_cr-Emits irq h prev b s i)
  where
    second :
        ((s' : Spin) → IsOn h s'.machine → Emits irq h (crlf b d) s' (write_loop irq h b d s'))
        → (s' : Spin) (p : Bool × Spin) → Emits irq h (b ∷ []) s' p
        → Emits irq h (b ∷ crlf b d) s' (elim p.0 as (λ x. Bool × Spin) [
          | false ↦ (false, p.1)
          | true ↦ write_loop irq h b d p.1
        ])
    second rest s' (false, s'') e = cut-Emits irq h (b ∷ []) (crlf b d) s' s'' e
    second rest s' (true, s'') e =
        then-Emits irq h (b ∷ []) (crlf b d) s' s'' (write_loop irq h b d s'') e (rest s'' e.on)

    first :
        ((s' : Spin) → IsOn h s'.machine → Emits irq h (crlf b d) s' (write_loop irq h b d s'))
        → (p : Bool × Spin) → Emits irq h (cr_before prev b) s p
        → Emits irq h (crlf prev (b ∷ d)) s (elim p.0 as (λ x. Bool × Spin) [
          | false ↦ (false, p.1)
          | true ↦ elim (spin_on irq h b p.1).0 as (λ x. Bool × Spin) [
            | false ↦ (false, (spin_on irq h b p.1).1)
            | true ↦ write_loop irq h b d (spin_on irq h b p.1).1
          ]
        ])
    first rest (false, s') e = cut-Emits irq h (cr_before prev b) (b ∷ crlf b d) s s' e
    first rest (true, s') e =
        then-Emits irq h (cr_before prev b) (b ∷ crlf b d) s s'
          (elim (spin_on irq h b s').0 as (λ x. Bool × Spin) [
            | false ↦ (false, (spin_on irq h b s').1)
            | true ↦ write_loop irq h b d (spin_on irq h b s').1
          ])
          e (second rest s' (spin_on irq h b s') (spin_on-Emits irq h b s' e.on))
