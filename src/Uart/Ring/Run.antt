-- ===== src/Uart/Ring/Run.antt =====
-- The contiguous run that the backend hands to the hardware, and the advance behind it.
use stm32f746g_disco.Prelude.{
  ℕ, zero, suc, ◌+◌, ◌-◌, ◌%◌, ◌≤◌, ◌<◌, ◌≡◌, refl, sym, ap, ◌∙◌, subst, inl, inr, [], ◌∷◌, arith,
  ltb, leb, if◌then◌else◌, ne→==, tests, Bool-cases, take, drop,
}
use stm32f746g_disco.Memory.{bytes_at}
use stm32f746g_disco.Uart.Ring.{
  UartRing, cli_uart_ring_count, cli_uart_ring_contig, cli_uart_ring_advance_tail,
}
use stm32f746g_disco.Uart.Ring.Index.{next, pos, run_from, mod_small, mod_all, pos_value, pos_lt}
use stm32f746g_disco.Uart.Ring.Queue.{IsRing, contents, count_lt}

take-run_from :
    (b : ℕ → ℕ) (s t n m : ℕ) → t + n ≤ s → n ≤ m → take n (run_from b s t m) ≡ bytes_at b t n
take-run_from b s t zero m h k = refl
take-run_from b s t (suc n) zero h k = absurd (omega arith)
take-run_from b s t (suc zero) (suc m) h k = refl
take-run_from b s t (suc (suc n)) (suc m) h k = ap (◌∷◌ (b t)) (
    rw (ne→== (t + 1) s (λ e. absurd (omega arith))) (
      take-run_from b s (t + 1) (suc n) m (omega arith) (omega arith)
      ∙ ap (λ p. bytes_at b p (suc n)) (omega arith)))

drop-run_from :
    (b : ℕ → ℕ) (s t n m : ℕ) → n ≤ m → drop n (run_from b s t m) ≡ run_from b s (pos s t n) (m - n)
drop-run_from b s t zero m h = ap (run_from b s t) (omega arith)
drop-run_from b s t (suc n) zero h = absurd (omega arith)
drop-run_from b s t (suc n) (suc m) h =
    drop-run_from b s (next s t) n m (omega arith)
    ∙ ap (run_from b s (pos s (next s t) n)) (omega arith)

pub contig-le : (r : UartRing) → IsRing r → cli_uart_ring_contig r ≤ cli_uart_ring_count r
contig-le r i = ground (arith, i.head_lt, i.tail_lt)

pub contig-fits : (r : UartRing) → IsRing r → r.tail + cli_uart_ring_contig r ≤ r.size
contig-fits r i = ground (arith, i.head_lt, i.tail_lt)

-- A run has all the stored bytes that stand before the end of the buffer.
pub contig-all :
    (r : UartRing) (n : ℕ)
    → IsRing r
    → n ≤ cli_uart_ring_count r
    → r.tail + n ≤ r.size
    → n ≤ cli_uart_ring_contig r
contig-all r n i h k = ground (arith, i.head_lt, i.tail_lt)

-- A run is empty only where nothing is stored.
pub contig-zero : (r : UartRing) → IsRing r → cli_uart_ring_contig r ≡ 0 → contents r ≡ []
contig-zero r i e = ap (run_from r.buf r.size r.tail) none_left
  where
    none_left : cli_uart_ring_count r ≡ 0
    none_left = ground (arith, i.head_lt, i.tail_lt, e)

-- The bytes at `*p` are the oldest ones.
pub contig-oldest :
    (r : UartRing) (n : ℕ)
    → IsRing r
    → n ≤ cli_uart_ring_contig r
    → bytes_at r.buf r.tail n ≡ take n (contents r)
contig-oldest r n i h = sym (
    take-run_from r.buf r.size r.tail n (cli_uart_ring_count r) (omega (arith, contig-fits r i))
      (omega (arith, contig-le r i)))

mod_pos : (s t n : ℕ) → t < s → n < s → t + n ≤ s → (t + n) % s ≡ pos s t n
mod_pos s t n h k l = elim (Bool-cases (ltb (t + n) s)) [
  | inl e ↦ mod_small (t + n) s (omega tests) ∙ sym (pos_value s t n h k ∙ rw e refl)
  | inr e ↦ ap (◌% s) (omega tests) ∙ mod_all s ∙ sym (pos_value s t n h k ∙ rw e (omega tests))
]

moved_pos :
    (r : UartRing) (n : ℕ)
    → IsRing r
    → n ≤ cli_uart_ring_contig r
    → (r.tail + n) % r.size ≡ pos r.size r.tail n
moved_pos r n i h =
    mod_pos r.size r.tail n i.tail_lt (omega (arith, contig-le r i, count_lt r i))
      (omega (arith, contig-fits r i))

pub advance-IsRing :
    (r : UartRing) (n : ℕ)
    → IsRing r
    → n ≤ cli_uart_ring_contig r
    → IsRing (cli_uart_ring_advance_tail r n)
advance-IsRing r n i h = record {
  head_lt = i.head_lt;
  tail_lt = subst (λ t. t < r.size) (sym (moved_pos r n i h)) (pos_lt r.size r.tail n i.tail_lt);
}

-- Advancing the tail by no more than a run drops as many of the oldest bytes.
pub advance-drops :
    (r : UartRing) (n : ℕ)
    → IsRing r
    → n ≤ cli_uart_ring_contig r
    → contents (cli_uart_ring_advance_tail r n) ≡ drop n (contents r)
advance-drops r n i h =
    ap (λ t. run_from r.buf r.size t (cli_uart_ring_count (record r { tail = t })))
      (moved_pos r n i h)
    ∙ ap (run_from r.buf r.size (pos r.size r.tail n)) left
    ∙ sym
        (drop-run_from r.buf r.size r.tail n (cli_uart_ring_count r) (omega (arith, contig-le r i)))
  where
    shorter :
        (h t s u : ℕ)
        → h < s
        → t < s
        → n < s
        → n ≤ (if leb t h then h - t else s - t)
        → u ≡ (if ltb (t + n) s then t + n else t + n - s)
        → (if leb u h then h - u else s - u + h) ≡ (if leb t h then h - t else s - t + h) - n
    shorter h t s u a b c k e = ground arith

    left : cli_uart_ring_count (record r { tail = pos r.size r.tail n }) ≡ cli_uart_ring_count r - n
    left =
        shorter r.head r.tail r.size (pos r.size r.tail n) i.head_lt i.tail_lt
          (omega (arith, contig-le r i, count_lt r i)) h
          (pos_value r.size r.tail n i.tail_lt (omega (arith, contig-le r i, count_lt r i)))
