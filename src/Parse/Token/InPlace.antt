-- ===== src/Parse/Token/InPlace.antt =====
-- The in-place scanner of `next_token` against the state machine of `Lex`.
use stm32f746g_disco.Prelude.{
  ℕ, zero, suc, ◌+◌, ◌≤◌, ◌<◌, ◌≡◌, refl, sym, ◌∙◌, subst, ◌≢◌, inl, inr, true, false, Option, none,
  some, [], ◌∷◌, arith, ◌==◌, ne→==, ==_iff, Bool-cases, length, Bytes,
}
use stm32f746g_disco.Memory.{
  Mem, write, IsString, Holds, SameBelow, write_self, write_ne, IsString-write,
}
use stm32f746g_disco.Parse.Lex.{Lex, Scan, is_space, scan, prepend}
use stm32f746g_disco.Parse.Token.{
  Quote, Cursor, skip, take_byte, step_at, Scanned, unterminated, scanned, scan_loop,
}

abbrev pub lex : Quote → Lex
lex Quote.bare = Lex.bare
lex Quote.double = Lex.double
lex Quote.single = Lex.single

-- From memory `m` and write position `wr`, the scanner has written the bytes and stopped at `t`.
pub record Reads (m : Mem) (wr : ℕ) (t : Cursor) (bytes rest : Bytes) : Type 0 where
  pub room : t.wr ≤ t.rd
  pub behind : rest ≢ [] → t.wr < t.rd
  pub unread : IsString t.mem t.rd rest
  pub text : Holds t.mem wr bytes
  pub moved : t.wr ≡ wr + length bytes
  pub same : SameBelow wr m t.mem

abbrev pub Agrees : Mem → ℕ → Scan → Option Scanned → Type 0
Agrees m wr (some (b, r)) (some (scanned t)) = Reads m wr t b r
Agrees m wr none (some (unterminated n)) = Unit {0}
Agrees m wr (some _) (some (unterminated n)) = ⊥
Agrees m wr none (some (scanned t)) = ⊥
Agrees m wr s none = ⊥

-- A byte written first is the first byte of the token.
Reads-cons :
    (m : Mem) (wr c : ℕ) (t : Cursor) (b r : Bytes)
    → c ≢ 0
    → Reads (write m wr c) (suc wr) t b r
    → Reads m wr t (c ∷ b) r
Reads-cons m wr c t b r nz h = record {
  room = h.room;
  behind = h.behind;
  unread = h.unread;
  text = (h.same wr (omega arith) ∙ write_self m wr c, nz, h.text);
  moved = omega (arith, h.moved);
  same = λ i p. h.same i (omega arith) ∙ write_ne m wr c i (omega arith);
}

Agrees-cons :
    (m : Mem) (wr c : ℕ) (s : Scan) (o : Option Scanned)
    → c ≢ 0
    → Agrees (write m wr c) (suc wr) s o
    → Agrees m wr (prepend true c s) o
Agrees-cons m wr c (some (b, r)) (some (scanned t)) nz h = Reads-cons m wr c t b r nz h
Agrees-cons m wr c none (some (unterminated n)) nz h = tt
Agrees-cons m wr c (some _) (some (unterminated n)) nz h = h
Agrees-cons m wr c none (some (scanned t)) nz h = h
Agrees-cons m wr c none none nz h = h
Agrees-cons m wr c (some _) none nz h = h

Reads-here :
    (s : Cursor) (rest : Bytes)
    → s.wr ≤ s.rd
    → (rest ≢ [] → s.wr < s.rd)
    → IsString s.mem s.rd rest
    → Reads s.mem s.wr s [] rest
Reads-here s rest le lt u = record {
  room = le;
  behind = lt;
  unread = u;
  text = tt;
  moved = omega arith;
  same = λ i p. refl;
}

abbrev pub Goal : ℕ → Quote → Bytes → Cursor → Type 0
Goal f q cs s = Agrees s.mem s.wr (scan (lex q) cs) (scan_loop f q s)

abbrev pub Ready : ℕ → Bytes → Cursor → Type 0
Ready f cs s = IsString s.mem s.rd cs × (s.wr ≤ s.rd) × (length cs < f)

scan_nil : (f : ℕ) (q : Quote) (s : Cursor) → Ready (suc f) [] s → Goal (suc f) q [] s
unfolding scan scan_loop step_at
scan_nil f Quote.bare s (e, le, _) =
    rw (e, scan_loop) (Reads-here s [] le (λ ne. absurd (ne refl)) e)
scan_nil f Quote.double s (e, le, _) = rw (e, scan_loop) tt
scan_nil f Quote.single s (e, le, _) = rw (e, scan_loop) tt

-- What the scanner does behind one byte, given as a function.
abbrev Later : ℕ → Bytes → Type 0
Later f cs = (q : Quote) (t : Cursor) → Ready f cs t → Goal f q cs t

Ready-skip : (f c : ℕ) (cs : Bytes) (s : Cursor) → Ready (suc f) (c ∷ cs) s → Ready f cs (skip s)
Ready-skip f c cs s (u, le, lt) = (u.2, omega arith, omega arith)

Ready-take_byte :
    (f c d : ℕ) (cs : Bytes) (s : Cursor) → Ready (suc f) (c ∷ cs) s → Ready f cs (take_byte d s)
Ready-take_byte f c d cs s (u, le, lt) =
    (IsString-write cs s.mem (suc s.rd) s.wr d (omega arith) u.2, omega arith, omega arith)

-- One plain byte goes to the token, in every state.
Goal-text :
    (f c : ℕ) (q : Quote) (cs : Bytes) (s : Cursor)
    → Ready (suc f) (c ∷ cs) s
    → Later f cs
    → Agrees s.mem s.wr (prepend true c (scan (lex q) cs)) (scan_loop f q (take_byte c s))
Goal-text f c q cs s r ih =
    Agrees-cons s.mem s.wr c (scan (lex q) cs) (scan_loop f q (take_byte c s)) r.0.1
      (ih q (take_byte c s) (Ready-take_byte f c c cs s r))

scan_single :
    (f c : ℕ) (cs : Bytes) (s : Cursor)
    → Ready (suc f) (c ∷ cs) s
    → Later f cs
    → Goal (suc f) Quote.single (c ∷ cs) s
unfolding scan scan_loop step_at
scan_single f c cs s r ih = elim (Bool-cases (c == b'\'')) [
  | inl e ↦
      rw (r.0.0, ne→== c 0 r.0.1, e, scan_loop, prepend)
        (ih Quote.bare (skip s) (Ready-skip f c cs s r))
  | inr e ↦
      rw (r.0.0, ne→== c 0 r.0.1, e, scan_loop, prepend) (Goal-text f c Quote.single cs s r ih)
]

Ready-escaped :
    (f c d : ℕ) (cs : Bytes) (s : Cursor)
    → Ready (suc f) (c ∷ d ∷ cs) s
    → Ready f cs (take_byte d (skip s))
Ready-escaped f c d cs s (u, le, lt) =
    (IsString-write cs s.mem (suc (suc s.rd)) s.wr d (omega arith) u.2.2, omega arith, omega arith)

Goal-escaped :
    (f c d : ℕ) (q : Quote) (cs : Bytes) (s : Cursor)
    → Ready (suc f) (c ∷ d ∷ cs) s
    → Later f cs
    → Agrees s.mem s.wr (prepend true d (scan (lex q) cs)) (scan_loop f q (take_byte d (skip s)))
Goal-escaped f c d q cs s r ih =
    Agrees-cons s.mem s.wr d (scan (lex q) cs) (scan_loop f q (take_byte d (skip s))) r.0.2.1
      (ih q (take_byte d (skip s)) (Ready-escaped f c d cs s r))

scan_double :
    (f c : ℕ) (cs : Bytes) (s : Cursor)
    → Ready (suc f) (c ∷ cs) s
    → (c == b'\\') ≡ false
    → Later f cs
    → Goal (suc f) Quote.double (c ∷ cs) s
unfolding scan scan_loop step_at
scan_double f c cs s r ne ih = elim (Bool-cases (c == b'"')) [
  | inl e ↦
      rw (r.0.0, ne→== c 0 r.0.1, e, scan_loop, prepend)
        (ih Quote.bare (skip s) (Ready-skip f c cs s r))
  | inr e ↦
      rw (r.0.0, ne→== c 0 r.0.1, e, ne, scan_loop, prepend) (Goal-text f c Quote.double cs s r ih)
]

scan_double_escape :
    (f d : ℕ) (cs : Bytes) (s : Cursor)
    → Ready (suc f) (b'\\' ∷ d ∷ cs) s
    → Later f cs
    → Goal (suc f) Quote.double (b'\\' ∷ d ∷ cs) s
unfolding scan scan_loop step_at
scan_double_escape f d cs s r ih =
    rw (r.0.0, scan_loop)
      (rw (r.0.2.0, ne→== d 0 r.0.2.1, scan_loop) (Goal-escaped f b'\\' d Quote.double cs s r ih))

scan_double_end :
    (f : ℕ) (s : Cursor) → Ready (suc f) (b'\\' ∷ []) s → Goal (suc f) Quote.double (b'\\' ∷ []) s
unfolding scan scan_loop step_at
scan_double_end f s r = rw (r.0.0, scan_loop) (rw (r.0.2, scan_loop) tt)

scan_bare_escape :
    (f d : ℕ) (cs : Bytes) (s : Cursor)
    → Ready (suc f) (b'\\' ∷ d ∷ cs) s
    → Later f cs
    → Goal (suc f) Quote.bare (b'\\' ∷ d ∷ cs) s
unfolding scan scan_loop step_at
scan_bare_escape f d cs s r ih =
    rw (r.0.0, scan_loop)
      (rw (r.0.2.0, ne→== d 0 r.0.2.1, scan_loop) (Goal-escaped f b'\\' d Quote.bare cs s r ih))

-- A backslash at the end of the line stands for itself.
scan_bare_end :
    (f : ℕ) (s : Cursor) → Ready (suc f) (b'\\' ∷ []) s → Goal (suc f) Quote.bare (b'\\' ∷ []) s
unfolding scan scan_loop step_at
scan_bare_end f s r = rw (r.0.0, scan_loop) (rw (r.0.2, scan_loop) last)
  where
    last : Reads s.mem s.wr (take_byte b'\\' s) (b'\\' ∷ []) []
    last = Reads-cons s.mem s.wr b'\\' (take_byte b'\\' s) [] [] (omega arith) (
        Reads-here (take_byte b'\\' s) [] (omega (arith, r.1)) (λ ne. absurd (ne refl))
          (IsString-write [] s.mem (suc s.rd) s.wr b'\\' (omega (arith, r.1)) r.0.2))

scan_bare :
    (f c : ℕ) (cs : Bytes) (s : Cursor)
    → Ready (suc f) (c ∷ cs) s
    → (c == b'\\') ≡ false
    → Later f cs
    → Goal (suc f) Quote.bare (c ∷ cs) s
unfolding scan scan_loop step_at
scan_bare f c cs s r ne ih = elim (Bool-cases (is_space c)) [
  | inl e ↦
      rw (r.0.0, ne→== c 0 r.0.1, e, scan_loop)
        (Reads-here (skip s) cs (omega (arith, r.1)) (λ _. omega (arith, r.1)) r.0.2)
  | inr n ↦ elim (Bool-cases (c == b'"')) [
    | inl e ↦
        rw (r.0.0, ne→== c 0 r.0.1, n, e, scan_loop, prepend)
          (ih Quote.double (skip s) (Ready-skip f c cs s r))
    | inr k ↦ elim (Bool-cases (c == b'\'')) [
      | inl e ↦
          rw (r.0.0, ne→== c 0 r.0.1, n, k, e, scan_loop, prepend)
            (ih Quote.single (skip s) (Ready-skip f c cs s r))
      | inr e ↦
          rw (r.0.0, ne→== c 0 r.0.1, n, k, e, ne, scan_loop, prepend)
            (Goal-text f c Quote.bare cs s r ih)
    ]
  ]
]

by_backslash : (P : ℕ → Type 0) (c : ℕ) → ((c == b'\\') ≡ false → P c) → P b'\\' → P c
by_backslash P c f g = elim (Bool-cases (c == b'\\')) [
  | inl e ↦ subst P (sym ((==_iff c b'\\').0 e)) g
  | inr e ↦ f e
]

-- The loop of `next_token` agrees with the state machine: it stops where the machine does, has
-- written the machine's bytes, and never writes at or past the byte that it reads next.
pub scan_loop-Agrees : (cs : Bytes) (f : ℕ) (q : Quote) (s : Cursor) → Ready f cs s → Goal f q cs s
scan_loop-Agrees cs zero q s r = absurd (omega (arith, r.2))
scan_loop-Agrees [] (suc f) q s r = scan_nil f q s r
scan_loop-Agrees (c ∷ cs) (suc f) Quote.single s r = scan_single f c cs s r (scan_loop-Agrees cs f)
scan_loop-Agrees (c ∷ []) (suc f) Quote.bare s r =
    by_backslash (λ x. Ready (suc f) (x ∷ []) s → Goal (suc f) Quote.bare (x ∷ []) s) c
      (λ e k. scan_bare f c [] s k e (scan_loop-Agrees [] f)) (scan_bare_end f s) r
scan_loop-Agrees (c ∷ []) (suc f) Quote.double s r =
    by_backslash (λ x. Ready (suc f) (x ∷ []) s → Goal (suc f) Quote.double (x ∷ []) s) c
      (λ e k. scan_double f c [] s k e (scan_loop-Agrees [] f)) (scan_double_end f s) r
scan_loop-Agrees (c ∷ d ∷ cs) (suc f) Quote.bare s r =
    by_backslash (λ x. Ready (suc f) (x ∷ d ∷ cs) s → Goal (suc f) Quote.bare (x ∷ d ∷ cs) s) c
      (λ e k. scan_bare f c (d ∷ cs) s k e (scan_loop-Agrees (d ∷ cs) f))
      (λ k. scan_bare_escape f d cs s k (scan_loop-Agrees cs f)) r
scan_loop-Agrees (c ∷ d ∷ cs) (suc f) Quote.double s r =
    by_backslash (λ x. Ready (suc f) (x ∷ d ∷ cs) s → Goal (suc f) Quote.double (x ∷ d ∷ cs) s) c
      (λ e k. scan_double f c (d ∷ cs) s k e (scan_loop-Agrees (d ∷ cs) f))
      (λ k. scan_double_escape f d cs s k (scan_loop-Agrees cs f)) r
