-- ===== src/Parse/Token/Next.antt =====
-- `next_token` on a line in memory reads the token that the state machine of `Lex` reads.
use stm32f746g_disco.Prelude.{
  ℕ, zero, suc, ◌+◌, ◌≤◌, ◌<◌, ◌≡◌, refl, ap, ◌∙◌, ◌≢◌, inl, inr, Option, none, some, [], ◌∷◌,
  arith, ◌==◌, if◌then◌else◌, ne→==, Bool-cases, length, Bytes,
}
use stm32f746g_disco.Memory.{
  Mem, write, IsString, SameBelow, write_self, write_ne, write_at, IsString-write, Holds-SameBelow,
  IsString-Holds,
}
use stm32f746g_disco.Parse.Lex.{
  Lex, Scan, Reading, nothing, open_quote, reading, is_space, scan, skip_spaces, reading_of,
  read_from, read_token,
}
use stm32f746g_disco.Parse.Token.{
  Quote, Cursor, Scanned, unterminated, scanned, scan_loop, skip_loop, NextToken, end_of_line,
  error, token, close, token_from, next_token,
}
use stm32f746g_disco.Parse.Token.InPlace.{Agrees, Reads, scan_loop-Agrees}

-- The blanks in front of a token.
skip_loop_lem :
    (cs : Bytes) (f : ℕ) (m : Mem) (rd : ℕ)
    → IsString m rd cs
    → length cs < f
    → (p : ℕ) × (skip_loop f m rd ≡ some p) × IsString m p (skip_spaces cs) × (rd ≤ p)
unfolding skip_loop skip_spaces
skip_loop_lem cs zero m rd u lt = absurd (omega arith)
skip_loop_lem [] (suc f) m rd u lt = (rd, rw (u, skip_loop), u, omega arith)
skip_loop_lem (c ∷ cs) (suc f) m rd u lt = elim (Bool-cases (is_space c)) [
  | inl e ↦
      let (p, h, s, le) = skip_loop_lem cs f m (suc rd) u.2 (omega arith) in
      (p, rw (u.0, e, skip_loop) h, rw e s, omega arith)
  | inr e ↦ (rd, rw (u.0, e, skip_loop), rw e u, omega arith)
]

length-skip_spaces : (cs : Bytes) → length (skip_spaces cs) ≤ length cs
unfolding skip_spaces
length-skip_spaces [] = omega arith
length-skip_spaces (c ∷ cs) = ground (arith, length-skip_spaces cs)

-- What the caller of `next_token` has after each kind of reading: the token stands as a C string
-- where the write cursor was, the unread rest is untouched, and nothing below changed.
pub record TokenAt (before : Cursor) (tok : ℕ) (after : Cursor) (bytes rest : Bytes) : Type 0 where
  pub start : tok ≡ before.wr
  pub text : IsString after.mem tok bytes
  pub unread : IsString after.mem after.rd rest
  pub moved : after.wr ≡ suc (before.wr + length bytes)
  pub behind : rest ≢ [] → after.wr ≤ after.rd
  pub same : SameBelow before.wr before.mem after.mem

abbrev pub Reports : Cursor → Reading → Option NextToken → Type 0
Reports s nothing (some (end_of_line rd)) = s.mem rd ≡ 0
Reports s open_quote (some (error m)) = Unit {0}
Reports s (reading b r) (some (token tok t)) = TokenAt s tok t b r
Reports s _ _ = ⊥

unread_kept :
    (rest : Bytes) (m : Mem) (rd wr : ℕ)
    → (rest ≢ [] → wr < rd)
    → IsString m rd rest
    → IsString (write m wr 0) rd rest
unread_kept [] m rd wr lt u = elim (Bool-cases (rd == wr)) [
  | inl e ↦ rw (write_at m wr 0 rd, e)
  | inr e ↦ rw (write_at m wr 0 rd, e) u
]
unread_kept (c ∷ cs) m rd wr lt u = IsString-write (c ∷ cs) m rd wr 0 (lt (λ e. ground arith)) u

close-TokenAt :
    (s t : Cursor) (b r : Bytes)
    → Reads s.mem s.wr t b r
    → TokenAt s s.wr (record { mem = write t.mem t.wr 0; rd = t.rd; wr = suc t.wr }) b r
close-TokenAt s t b r h = record {
  start = refl;
  text =
      IsString-Holds b (write t.mem t.wr 0) s.wr
        (Holds-SameBelow b t.mem (write t.mem t.wr 0) s.wr t.wr (omega (arith, h.moved))
          (λ i p. write_ne t.mem t.wr 0 i (omega arith)) h.text)
        (rw (← h.moved) (write_self t.mem t.wr 0));
  unread = unread_kept r t.mem t.rd t.wr h.behind h.unread;
  moved = ap suc h.moved;
  behind = h.behind;
  same = λ i p. write_ne t.mem t.wr 0 i (omega (arith, h.moved)) ∙ h.same i p;
}

close-Reports :
    (s : Cursor) (o : Scan) (r : Option Scanned)
    → Agrees s.mem s.wr o r
    → Reports s (reading_of o) (close s.wr r)
close-Reports s (some (b, r)) (some (scanned t)) h = close-TokenAt s t b r h
close-Reports s none (some (unterminated n)) h = tt
close-Reports s (some _) (some (unterminated n)) h = h
close-Reports s none (some (scanned t)) h = h
close-Reports s (some _) none h = h
close-Reports s none none h = h

token_from-Reports :
    (cs : Bytes) (f : ℕ) (s : Cursor) (p : ℕ)
    → IsString s.mem p cs
    → (cs ≢ [] → s.wr ≤ p)
    → length cs < f
    → Reports s (read_from cs) (token_from f s.mem s.wr (some p))
token_from-Reports [] f s p u le lt = rw (u, if◌then◌else◌) u
token_from-Reports (c ∷ cs) f s p u le lt =
    rw (u.0, ne→== c 0 u.1)
      (close-Reports s (scan Lex.bare (c ∷ cs)) (scan_loop f Quote.bare (record s { rd = p })) (
        scan_loop-Agrees (c ∷ cs) f Quote.bare (record s { rd = p })
          (u, le (λ e. ground arith), lt)))

skip_spaces-nil : (cs : Bytes) → cs ≡ [] → skip_spaces cs ≡ []
unfolding skip_spaces
skip_spaces-nil cs e = rw (e, skip_spaces)

-- With a C string at the read cursor, the write cursor not past it, and more fuel than the string
-- is long, `next_token` returns; it returns what the state machine reads off the string, leaves the
-- token as a C string at the old write cursor and the rest unread, and changes nothing below.
pub next_token-Reports :
    (line : Bytes) (f : ℕ) (s : Cursor)
    → IsString s.mem s.rd line
    → (line ≢ [] → s.wr ≤ s.rd)
    → length line < f
    → Reports s (read_token line) (next_token f s)
unfolding read_token next_token
next_token-Reports line f s u le lt =
    let (p, e, v, up) = skip_loop_lem line f s.mem s.rd u lt in
    rw (e, token_from)
      (token_from-Reports (skip_spaces line) f s p v
        (λ ne. omega (arith, le (λ k. ne (skip_spaces-nil line k))))
        (omega (arith, length-skip_spaces line)))
