-- ===== src/Format/Output.antt =====
-- How long the output is, and how much of it a buffer takes.
use stm32f746g_disco.Prelude.{
  ℕ, zero, suc, ◌+◌, ◌-◌, ◌<◌, max, ◌≡◌, refl, sym, ap, ◌∙◌, ◌≢◌, inl, inr, Bool, true, false, some,
  List, [], ◌∷◌, ◌++◌, append_assoc, append-nil, arith, ltb, ne→==, tests, Bool-cases, length, take,
  replicate, length-append, length-replicate, Bytes,
}
use stm32f746g_disco.Format.{fmt_padded, Arg, snbuf_putc, snbuf_puts, fmt_vformat, fmt_vsnformat}

-- A padded field is as wide as asked for, or as what it holds if that is wider, whatever the padding.
pub fmt_padded-length :
    (prefix body : Bytes) (width : ℕ) (zeros left : Bool)
    → length (fmt_padded prefix body width zeros left) ≡ max width (length prefix + length body)
unfolding fmt_padded
fmt_padded-length prefix body width zeros true = omega (
  arith,
  length-append (prefix ++ body) blanks,
  length-append prefix body,
  length-replicate {A = ℕ} pad b' ',
)
  where
    pad : ℕ
    pad = width - (length prefix + length body)

    blanks : Bytes
    blanks = replicate pad b' '
fmt_padded-length prefix body width true false = omega (
  arith,
  length-append (prefix ++ noughts) body,
  length-append prefix noughts,
  length-replicate {A = ℕ} pad b'0',
)
  where
    pad : ℕ
    pad = width - (length prefix + length body)

    noughts : Bytes
    noughts = replicate pad b'0'
fmt_padded-length prefix body width false false = omega (
  arith,
  length-append (blanks ++ prefix) body,
  length-append blanks prefix,
  length-replicate {A = ℕ} pad b' ',
)
  where
    pad : ℕ
    pad = width - (length prefix + length body)

    blanks : Bytes
    blanks = replicate pad b' '

-- a buffer that holds some bytes takes the next ones up to its room
puts_lem :
    (size : ℕ) (cs stored : Bytes)
    → length stored < size
    → snbuf_puts size stored cs ≡ stored ++ take (size - 1 - length stored) cs
unfolding snbuf_puts snbuf_putc
puts_lem size [] stored h =
    sym (ap (λ x. stored ++ x) (take_nothing (size - 1 - length stored)) ∙ append-nil stored)
  where
    take_nothing : (n : ℕ) → ◌≡◌ {A = Bytes} (take n []) []
    take_nothing zero = refl
    take_nothing (suc n) = refl
puts_lem size (c ∷ cs) stored h = elim (Bool-cases (ltb (length stored + 1) size)) [
  | inl b ↦ rw b (
      puts_lem size cs (stored ++ c ∷ []) (omega (tests, length-append stored (c ∷ [])))
      ∙ append_assoc stored (c ∷ []) (take (size - 1 - length (stored ++ c ∷ [])) cs)
      ∙ ap (λ x. stored ++ x)
          (first (size - 1 - length stored) (omega (tests, length-append stored (c ∷ [])))))
  | inr b ↦ rw b (puts_lem size cs stored h ∙ full (size - 1 - length stored) (omega tests))
]
  where
    full : (n : ℕ) → n ≡ 0 → stored ++ take n cs ≡ stored ++ take n (c ∷ cs)
    full n z = ap (λ k. stored ++ take k cs) z ∙ sym (ap (λ k. stored ++ take k (c ∷ cs)) z)

    first :
        (n : ℕ)
        → n ≡ suc (size - 1 - length (stored ++ c ∷ []))
        → c ∷ take (size - 1 - length (stored ++ c ∷ [])) cs ≡ take n (c ∷ cs)
    first n e = sym (ap (λ k. take k (c ∷ cs)) e)

-- A buffer that is not empty gets the output of the formatter cut to one byte less than its size, which
-- leaves room for the NUL.
pub fmt_vsnformat-take :
    (f size : ℕ) (fmt : Bytes) (as' : List Arg) {o : Bytes}
    → size ≢ 0
    → fmt_vformat f fmt as' ≡ some o
    → fmt_vsnformat f size fmt as' ≡ some (take (size - 1) o)
unfolding fmt_vsnformat
fmt_vsnformat-take f size fmt as' {o} ne e =
    rw (ne→== size 0 ne, e, fmt_vsnformat)
      (ap some (puts_lem size o [] (omega (arith, ne)) ∙ ap (λ n. take n o) (omega arith)))
