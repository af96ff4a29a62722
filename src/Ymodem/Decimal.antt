-- ===== src/Ymodem/Decimal.antt =====
-- The decimal size that block 0 announces.
use stm32f746g_disco.Prelude.{
  ℕ, zero, suc, ◌+◌, ◌-◌, ◌*◌, ◌/◌, ◌^◌, ◌≤◌, ◌<◌, ◌≡◌, refl, sym, ◌∙◌, inl, inr, false, [], ◌∷◌,
  ◌++◌, arith, ◌==◌, ==→eq, Bool-cases, length, length-append, Bytes,
}
use stm32f746g_disco.Ymodem.{digit_loop, reversed, u32_to_dec}

-- The number that decimal digits stand for, the first one the highest.
abbrev value_from : ℕ → Bytes → ℕ
value_from acc [] = acc
value_from acc (c ∷ cs) = value_from (acc * 10 + (c - 48)) cs

abbrev pub value : Bytes → ℕ
value cs = value_from 0 cs

-- the same for the lowest digit first
abbrev little : Bytes → ℕ
little [] = 0
little (c ∷ cs) = (c - 48) + 10 * little cs

value-concat :
    (cs : Bytes) (acc c : ℕ) → value_from acc (cs ++ c ∷ []) ≡ value_from acc cs * 10 + (c - 48)
value-concat [] acc c = refl
value-concat (d ∷ cs) acc c = value-concat cs (acc * 10 + (d - 48)) c

value-reversed : (cs : Bytes) → value (reversed cs) ≡ little cs
value-reversed [] = refl
value-reversed (c ∷ cs) = omega (arith, value-concat (reversed cs) 0 c, value-reversed cs)

length-reversed : (cs : Bytes) → length (reversed cs) ≡ length cs
length-reversed [] = refl
length-reversed (c ∷ cs) = omega (arith, length-append (reversed cs) (c ∷ []), length-reversed cs)

abbrev pow10 : ℕ → ℕ
pow10 zero = 1
pow10 (suc f) = 10 * pow10 f

little-digit_loop : (f v : ℕ) → v < pow10 f → little (digit_loop f v) ≡ v
unfolding digit_loop
little-digit_loop zero v lt = omega (arith, lt)
little-digit_loop (suc f) v lt = elim (Bool-cases (v == 0)) [
  | inl e ↦ rw (e, digit_loop) (sym (==→eq v 0 e))
  | inr e ↦ rw (e, digit_loop) (omega (arith, little-digit_loop f (v / 10) (omega (arith, lt))))
]

length-digit_loop : (f v : ℕ) → length (digit_loop f v) ≤ f
unfolding digit_loop
length-digit_loop zero v = omega arith
length-digit_loop (suc f) v = elim (Bool-cases (v == 0)) [
  | inl e ↦ rw (e, digit_loop) (omega arith)
  | inr e ↦ rw (e, digit_loop) (omega (arith, length-digit_loop f (v / 10)))
]

-- The bytes are the characters `0` to `9`.
abbrev pub AreDigits : Bytes → Type 0
AreDigits [] = Unit {0}
AreDigits (c ∷ cs) = (48 ≤ c) × (c ≤ 57) × AreDigits cs

concat-AreDigits : (cs : Bytes) (c : ℕ) → AreDigits cs → 48 ≤ c → c ≤ 57 → AreDigits (cs ++ c ∷ [])
concat-AreDigits [] c h l u = (l, u, tt)
concat-AreDigits (d ∷ cs) c h l u = (h.0, h.1, concat-AreDigits cs c h.2 l u)

reversed-AreDigits : (cs : Bytes) → AreDigits cs → AreDigits (reversed cs)
reversed-AreDigits [] h = tt
reversed-AreDigits (c ∷ cs) h = concat-AreDigits (reversed cs) c (reversed-AreDigits cs h.2) h.0 h.1

digit_loop-AreDigits : (f v : ℕ) → AreDigits (digit_loop f v)
unfolding digit_loop
digit_loop-AreDigits zero v = tt
digit_loop-AreDigits (suc f) v = elim (Bool-cases (v == 0)) [
  | inl e ↦ rw (e, digit_loop) tt
  | inr e ↦ rw (e, digit_loop) (omega arith, omega arith, digit_loop-AreDigits f (v / 10))
]

digit_loop-some : (f v : ℕ) → (v == 0) ≡ false → 1 ≤ length (digit_loop (suc f) v)
unfolding digit_loop
digit_loop-some f v e = rw (e, digit_loop) (omega arith)

-- `u32_to_dec` renders a 32-bit number as decimal digits that stand for it, at least one and at most
-- ten, the size of its buffer.
pub u32_to_dec-value :
    (v : ℕ)
    → v < 2 ^ 32
    → (value (u32_to_dec v) ≡ v)
      × (1 ≤ length (u32_to_dec v))
      × (length (u32_to_dec v) ≤ 10)
      × AreDigits (u32_to_dec v)
unfolding u32_to_dec
u32_to_dec-value v lt = elim (Bool-cases (v == 0)) [
  | inl e ↦
      rw (e, u32_to_dec)
        (sym (==→eq v 0 e), omega arith, omega arith, (omega arith, omega arith, tt))
  | inr e ↦
      rw (e, u32_to_dec)
        (
          value-reversed (digit_loop 10 v) ∙ little-digit_loop 10 v (omega (arith, lt)),
          omega (arith, length-reversed (digit_loop 10 v), digit_loop-some 9 v e),
          omega (arith, length-reversed (digit_loop 10 v), length-digit_loop 10 v),
          reversed-AreDigits (digit_loop 10 v) (digit_loop-AreDigits 10 v),
        )
]
