-- ===== src/Uart/Ring/Index.antt =====
-- The indices of a ring: where the n-th stored byte stands, and the run of bytes from an index on.
use stm32f746g_disco.Prelude.{
  ℕ, zero, suc, ◌+◌, ◌-◌, ◌%◌, ◌<◌, ◌≡◌, refl, sym, ap, ap₂, ◌∙◌, ◌≢◌, inl, inr, [], ◌∷◌, ◌++◌,
  arith, ltb, ◌==◌, if◌then◌else◌, tests, ==→eq, Bool-cases, length, Bytes,
}

-- the index behind `t` in a ring of `s` slots
abbrev pub next : ℕ → ℕ → ℕ
next s t = if t + 1 == s then 0 else t + 1

-- the index `n` behind `t`
abbrev pub pos : ℕ → ℕ → ℕ → ℕ
pos s t zero = t
pos s t (suc n) = pos s (next s t) n

-- the `n` bytes from index `t` on
abbrev pub run_from : (ℕ → ℕ) → ℕ → ℕ → ℕ → Bytes
run_from b s t zero = []
run_from b s t (suc n) = b t ∷ run_from b s (next s t) n

pub next_lt : (s t : ℕ) → t < s → next s t < s
next_lt s t h = ground arith

pub mod_small : (n m : ℕ) → n < m → n % m ≡ n
mod_small n m h = grind arith

pub mod_all : (m : ℕ) → m % m ≡ 0
mod_all m = grind arith

pub next_mod : (s t : ℕ) → t < s → (t + 1) % s ≡ next s t
next_mod s t h = elim (Bool-cases (t + 1 == s)) [
  | inl e ↦ rw e (rw (==→eq (t + 1) s e) (mod_all s))
  | inr e ↦ rw e (mod_small (t + 1) s (omega tests))
]

pub pos_value :
    (s t n : ℕ) → t < s → n < s → pos s t n ≡ (if ltb (t + n) s then t + n else t + n - s)
pos_value s t zero h k = ground arith
pos_value s t (suc n) h k = pos_value s (next s t) n (next_lt s t h) (omega arith) ∙ wrap
  where
    wrap :
        (if ltb (next s t + n) s then next s t + n else next s t + n - s)
        ≡ (if ltb (t + suc n) s then t + suc n else t + suc n - s)
    wrap = ground arith

pub pos_lt : (s t n : ℕ) → t < s → pos s t n < s
pos_lt s t zero h = h
pos_lt s t (suc n) h = pos_lt s (next s t) n (next_lt s t h)

pub length-run_from : (b : ℕ → ℕ) (s t n : ℕ) → length (run_from b s t n) ≡ n
length-run_from b s t zero = refl
length-run_from b s t (suc n) = ap suc (length-run_from b s (next s t) n)

pub run_from-snoc :
    (b : ℕ → ℕ) (s t n : ℕ) → run_from b s t n ++ (b (pos s t n) ∷ []) ≡ run_from b s t (suc n)
run_from-snoc b s t zero = refl
run_from-snoc b s t (suc n) = ap (◌∷◌ (b t)) (run_from-snoc b s (next s t) n)

pub run_from-same :
    (b c : ℕ → ℕ) (s t n : ℕ)
    → ((i : ℕ) → i < n → c (pos s t i) ≡ b (pos s t i))
    → run_from c s t n ≡ run_from b s t n
run_from-same b c s t zero h = refl
run_from-same b c s t (suc n) h =
    ap₂ ◌∷◌ (h 0 (omega arith)) (run_from-same b c s (next s t) n (λ i k. h (suc i) (omega arith)))

pub pos_ne : (s t i n : ℕ) → t < s → n < s → i < n → pos s t i ≢ pos s t n
pos_ne s t i n h k j e =
    absurd (apart (sym (pos_value s t i h (omega arith)) ∙ e ∙ pos_value s t n h k))
  where
    apart :
        (if ltb (t + i) s then t + i else t + i - s) ≡ (if ltb (t + n) s then t + n else t + n - s)
        → ⊥
    apart q = ground arith
