-- ===== src/Parse/Segment/Split.antt =====
-- Where the state machine of `Lex` cuts a line, and that `cli_next_segment` cuts there.
use stm32f746g_disco.Prelude.{
  ℕ, zero, suc, ◌+◌, ◌<◌, ◌≡◌, refl, sym, ap, ◌∙◌, subst, ◌≢◌, inl, inr, Bool, false, Option, none,
  some, [], ◌∷◌, arith, ◌==◌, if◌then◌else◌, ne→==, ==→eq, Bool-cases, length, Bytes,
}
use stm32f746g_disco.Memory.{
  Mem, write, IsString, Holds, IsString-Holds, Holds-SameBelow, write_self, write_ne,
  IsString-write,
}
use stm32f746g_disco.Parse.Lex.{Lex, next, bare, double, single}
use stm32f746g_disco.Parse.Token.{Quote}
use stm32f746g_disco.Parse.Token.InPlace.{lex}
use stm32f746g_disco.Parse.Segment.{move_at, separator_loop, Segment, cut_at, cli_next_segment}

abbrev pub is_separator : Lex → ℕ → Bool
is_separator bare c = c == b';'
is_separator _ c = false

abbrev pub cons_first : ℕ → Option (Bytes × Bytes) → Option (Bytes × Bytes)
cons_first c none = none
cons_first c (some (a, r)) = some (c ∷ a, r)

-- The part in front of the first `;` outside quotes and not escaped, and the part behind it.
unfoldable pub split : Lex → Bytes → Option (Bytes × Bytes)
split q [] = none
split q (c ∷ cs) = if is_separator q c then some ([], cs) else cons_first c (split (next q c) cs)

abbrev pub cut_of : ℕ → Option (Bytes × Bytes) → Option ℕ
cut_of p none = none
cut_of p (some (a, r)) = some (p + length a)

-- one byte further on
cut_of-cons : (p c : ℕ) (s : Option (Bytes × Bytes)) → cut_of p (cons_first c s) ≡ cut_of (suc p) s
cut_of-cons p c none = refl
cut_of-cons p c (some (a, r)) = ap some (omega arith)

abbrev Goal : ℕ → Quote → Bytes → Mem → ℕ → Type 0
Goal f q cs m p = separator_loop f q m p ≡ some (cut_of p (split (lex q) cs))

abbrev Later : ℕ → Bytes → Mem → Type 0
Later f cs m = (q : Quote) (p : ℕ) → IsString m p cs → Goal f q cs m p

one_byte :
    (f c : ℕ) (q : Quote) (cs : Bytes) (m : Mem) (p : ℕ)
    → IsString m p (c ∷ cs)
    → (q ≢ Quote.single → (c == b'\\') ≡ false)
    → Later f cs m
    → Goal (suc f) q (c ∷ cs) m p
unfolding separator_loop split next move_at
one_byte f c Quote.bare cs m p u ne ih = elim (Bool-cases (c == b';')) [
  | inl e ↦ rw (u.0, ne→== c 0 u.1, e, separator_loop) (ap (λ n. some (some n)) (omega arith))
  | inr k ↦ elim (Bool-cases (c == b'"')) [
    | inl e ↦
        rw (u.0, ne→== c 0 u.1, k, e, separator_loop)
          (ih Quote.double (suc p) u.2 ∙ ap some (sym (cut_of-cons p c (split double cs))))
    | inr d ↦ elim (Bool-cases (c == b'\'')) [
      | inl e ↦
          rw (u.0, ne→== c 0 u.1, k, d, e, separator_loop)
            (ih Quote.single (suc p) u.2 ∙ ap some (sym (cut_of-cons p c (split single cs))))
      | inr e ↦
          rw (u.0, ne→== c 0 u.1, k, d, e, ne (λ x. cc), separator_loop)
            (ih Quote.bare (suc p) u.2 ∙ ap some (sym (cut_of-cons p c (split bare cs))))
    ]
  ]
]
one_byte f c Quote.double cs m p u ne ih = elim (Bool-cases (c == b'"')) [
  | inl e ↦
      rw (u.0, ne→== c 0 u.1, e, separator_loop)
        (ih Quote.bare (suc p) u.2 ∙ ap some (sym (cut_of-cons p c (split bare cs))))
  | inr e ↦
      rw (u.0, ne→== c 0 u.1, e, ne (λ x. cc), separator_loop)
        (ih Quote.double (suc p) u.2 ∙ ap some (sym (cut_of-cons p c (split double cs))))
]
one_byte f c Quote.single cs m p u ne ih = elim (Bool-cases (c == b'\'')) [
  | inl e ↦
      rw (u.0, ne→== c 0 u.1, e, separator_loop)
        (ih Quote.bare (suc p) u.2 ∙ ap some (sym (cut_of-cons p c (split bare cs))))
  | inr e ↦
      rw (u.0, ne→== c 0 u.1, e, separator_loop)
        (ih Quote.single (suc p) u.2 ∙ ap some (sym (cut_of-cons p c (split single cs))))
]

two_bytes :
    (f d : ℕ) (q : Quote) (cs : Bytes) (m : Mem) (p : ℕ)
    → q ≢ Quote.single
    → IsString m p (b'\\' ∷ d ∷ cs)
    → Later f cs m
    → Goal (suc f) q (b'\\' ∷ d ∷ cs) m p
unfolding separator_loop split next move_at
two_bytes f d Quote.bare cs m p nq u ih =
    rw (u.0, u.2.0, ne→== d 0 u.2.1, separator_loop)
      (ih Quote.bare (suc (suc p)) u.2.2
        ∙ ap some (
            sym (
              cut_of-cons p b'\\' (cons_first d (split bare cs))
              ∙ cut_of-cons (suc p) d (split bare cs))))
two_bytes f d Quote.double cs m p nq u ih =
    rw (u.0, u.2.0, ne→== d 0 u.2.1, separator_loop)
      (ih Quote.double (suc (suc p)) u.2.2
        ∙ ap some (
            sym (
              cut_of-cons p b'\\' (cons_first d (split double cs))
              ∙ cut_of-cons (suc p) d (split double cs))))
two_bytes f d Quote.single cs m p nq u ih = absurd (nq refl)

last_backslash :
    (f : ℕ) (q : Quote) (m : Mem) (p : ℕ)
    → q ≢ Quote.single
    → IsString m p (b'\\' ∷ [])
    → Goal (suc f) q (b'\\' ∷ []) m p
unfolding separator_loop split next move_at
last_backslash f Quote.bare m p nq u = rw (u.0, u.2, separator_loop)
last_backslash f Quote.double m p nq u = rw (u.0, u.2, separator_loop)
last_backslash f Quote.single m p nq u = absurd (nq refl)

on_backslash :
    (f c : ℕ) (q : Quote) (cs : Bytes) (m : Mem) (p : ℕ)
    → IsString m p (c ∷ cs)
    → ((c == b'\\') ≡ false → Goal (suc f) q (c ∷ cs) m p)
    → (IsString m p (b'\\' ∷ cs) → Goal (suc f) q (b'\\' ∷ cs) m p)
    → Goal (suc f) q (c ∷ cs) m p
on_backslash f c q cs m p u other escape = elim (Bool-cases (c == b'\\')) [
  | inl e ↦
      let eq : b'\\' ≡ c = sym (==→eq c b'\\' e) in
      subst (λ x. Goal (suc f) q (x ∷ cs) m p) eq
        (escape (subst (λ x. IsString m p (x ∷ cs)) (sym eq) u))
  | inr e ↦ other e
]

separator_loop-split :
    (cs : Bytes) (f : ℕ) (q : Quote) (m : Mem) (p : ℕ)
    → IsString m p cs
    → length cs < f
    → Goal f q cs m p
unfolding separator_loop split move_at
separator_loop-split cs zero q m p u lt = absurd (omega arith)
separator_loop-split [] (suc f) Quote.bare m p u lt = rw (u, separator_loop)
separator_loop-split [] (suc f) Quote.double m p u lt = rw (u, separator_loop)
separator_loop-split [] (suc f) Quote.single m p u lt = rw (u, separator_loop)
separator_loop-split (c ∷ cs) (suc f) Quote.single m p u lt =
    one_byte f c Quote.single cs m p u (λ ne. absurd (ne refl))
      (λ q p' v. separator_loop-split cs f q m p' v (omega arith))
separator_loop-split (c ∷ []) (suc f) Quote.bare m p u lt =
    on_backslash f c Quote.bare [] m p u
      (λ e.
        one_byte f c Quote.bare [] m p u (λ _. e)
          (λ q p' v. separator_loop-split [] f q m p' v (omega arith)))
      (last_backslash f Quote.bare m p (λ e. cc))
separator_loop-split (c ∷ []) (suc f) Quote.double m p u lt =
    on_backslash f c Quote.double [] m p u
      (λ e.
        one_byte f c Quote.double [] m p u (λ _. e)
          (λ q p' v. separator_loop-split [] f q m p' v (omega arith)))
      (last_backslash f Quote.double m p (λ e. cc))
separator_loop-split (c ∷ d ∷ cs) (suc f) Quote.bare m p u lt =
    on_backslash f c Quote.bare (d ∷ cs) m p u
      (λ e.
        one_byte f c Quote.bare (d ∷ cs) m p u (λ _. e)
          (λ q p' v. separator_loop-split (d ∷ cs) f q m p' v (omega arith)))
      (λ v.
        two_bytes f d Quote.bare cs m p (λ e. cc) v
          (λ q p' w. separator_loop-split cs f q m p' w (omega arith)))
separator_loop-split (c ∷ d ∷ cs) (suc f) Quote.double m p u lt =
    on_backslash f c Quote.double (d ∷ cs) m p u
      (λ e.
        one_byte f c Quote.double (d ∷ cs) m p u (λ _. e)
          (λ q p' v. separator_loop-split (d ∷ cs) f q m p' v (omega arith)))
      (λ v.
        two_bytes f d Quote.double cs m p (λ e. cc) v
          (λ q p' w. separator_loop-split cs f q m p' w (omega arith)))

-- The bytes of a line on both sides of its cut.
abbrev Parts : Mem → ℕ → Option (Bytes × Bytes) → Type 0
Parts m p none = Unit {0}
Parts m p (some (a, r)) = Holds m p a × IsString m (suc (p + length a)) r

Parts-cons :
    (m : Mem) (p c : ℕ) (o : Option (Bytes × Bytes))
    → m p ≡ c
    → c ≢ 0
    → Parts m (suc p) o
    → Parts m p (cons_first c o)
Parts-cons m p c none e nz h = tt
Parts-cons m p c (some (a, r)) e nz h =
    ((e, nz, h.0), subst (λ x. IsString m x r) (omega arith) h.1)

split-Parts : (cs : Bytes) (q : Lex) (m : Mem) (p : ℕ) → IsString m p cs → Parts m p (split q cs)
unfolding split
split-Parts [] q m p u = tt
split-Parts (c ∷ cs) q m p u = elim (Bool-cases (is_separator q c)) [
  | inl s ↦ rw s (tt, subst (λ x. IsString m x cs) (omega arith) u.2)
  | inr s ↦
      rw s
        (Parts-cons m p c (split (next q c) cs) u.0 u.1 (split-Parts cs (next q c) m (suc p) u.2))
]

-- What `cli_next_segment` leaves, by the cut of the line that the cursor points at.
abbrev pub Cuts : Mem → ℕ → Bytes → Option (Bytes × Bytes) → Option Segment → Type 0
Cuts m p line o none = ⊥
Cuts m p line none (some s) = (s.start ≡ some p) × (s.cursor ≡ none) × (s.mem ≡ m)
Cuts m p line (some (a, r)) (some s) =
    (s.start ≡ some p)
    × IsString s.mem p a
    × (s.cursor ≡ some (suc (p + length a)))
    × IsString s.mem (suc (p + length a)) r

cut-Cuts :
    (m : Mem) (p : ℕ) (line : Bytes) (o : Option (Bytes × Bytes))
    → Parts m p o
    → Cuts m p line o (some (cut_at m p (cut_of p o)))
cut-Cuts m p line none h = (refl, refl, refl)
cut-Cuts m p line (some (a, r)) h = (
  refl,
  IsString-Holds a (write m (p + length a) 0) p
      (Holds-SameBelow a m (write m (p + length a) 0) p (p + length a) (omega arith)
        (λ i lt. write_ne m (p + length a) 0 i (omega arith)) h.0)
      (write_self m (p + length a) 0),
  refl,
  IsString-write r m (suc (p + length a)) (p + length a) 0 (omega arith) h.1,
)

-- With a C string at the cursor and more fuel than it is long, `cli_next_segment` returns it from its
-- start; where the state machine finds a top-level `;`, the segment in front of it is a C string
-- with its bytes unchanged and the cursor stands at the string behind it, and otherwise the cursor is
-- NULL and the memory unchanged.
pub cli_next_segment-Cuts :
    (line : Bytes) (f : ℕ) (m : Mem) (p : ℕ)
    → IsString m p line
    → length line < f
    → Cuts m p line (split bare line) (cli_next_segment f m (some p))
unfolding cli_next_segment
cli_next_segment-Cuts line f m p u lt =
    rw (separator_loop-split line f Quote.bare m p u lt, cli_next_segment)
      (cut-Cuts m p line (split bare line) (split-Parts line bare m p u))
