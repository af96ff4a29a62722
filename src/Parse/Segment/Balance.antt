-- ===== src/Parse/Segment/Balance.antt =====
-- The cut of a line keeps every byte, and leaves in front of the `;` a segment whose quotes are
-- closed: the splitter and the tokenizer are in lockstep.
use stm32f746g_disco.Prelude.{
  ℕ, ◌<◌, ◌≡◌, refl, sym, ap, subst, ◌≢◌, inl, inr, Bool, true, false, Option, none, some, List, [],
  ◌∷◌, ◌++◌, arith, ==→eq, Bool-cases, length, length-append, Bytes,
}
use stm32f746g_disco.Parse.Lex.{
  Lex, bare, bare_escape, double, double_escape, single, Scan, Reading, nothing, open_quote,
  reading, is_space, next, is_text, ends, scan, prepend, skip_spaces, reading_of, read_from,
  read_token, scan-cons, ends_bare,
}
use stm32f746g_disco.Memory.{Mem, IsString}
use stm32f746g_disco.Parse.Token.{Tokenized, unterminated_quote, tokens, cli_tokenize}
use stm32f746g_disco.Parse.Segment.{Segment, cli_next_segment}
use stm32f746g_disco.Parse.Token.Argv.{
  Lexes, ended, broken, more, lexes_total, Delivers, cli_tokenize-Delivers,
}
use stm32f746g_disco.Parse.Segment.Split.{
  is_separator, cons_first, split, Cuts, cli_next_segment-Cuts,
}

-- the state behind the bytes
unfoldable pub run : Lex → Bytes → Lex
run q [] = q
run q (c ∷ cs) = run (next q c) cs

-- A cut at top level puts the line together again.
abbrev pub Joins : Lex → Bytes → Option (Bytes × Bytes) → Type 0
Joins q line none = Unit {0}
Joins q line (some (a, r)) = (line ≡ a ++ b';' ∷ r) × (run q a ≡ bare)

Joins-cons :
    (q : Lex) (c : ℕ) (cs : Bytes) (o : Option (Bytes × Bytes))
    → Joins (next q c) cs o
    → Joins q (c ∷ cs) (cons_first c o)
unfolding run
Joins-cons q c cs none h = tt
Joins-cons q c cs (some (a, r)) h = (ap (◌∷◌ c) h.0, h.1)

split-Joins : (line : Bytes) (q : Lex) → Joins q line (split q line)
unfolding split run
split-Joins [] q = tt
split-Joins (c ∷ cs) q = elim (Bool-cases (is_separator q c)) [
  | inl s ↦ rw s (at_separator q c s)
  | inr s ↦ rw s (Joins-cons q c cs (split (next q c) cs) (split-Joins cs (next q c)))
]
  where
    at_separator : (q : Lex) (c : ℕ) → is_separator q c ≡ true → (c ∷ cs ≡ b';' ∷ cs) × (q ≡ bare)
    at_separator bare c s = (ap (λ x. x ∷ cs) (==→eq c b';' s), refl)
    at_separator bare_escape c s = cc
    at_separator double c s = cc
    at_separator double_escape c s = cc
    at_separator single c s = cc

-- The scan of closed text finds a token and leaves closed text.
abbrev Closed : Scan → Type 0
Closed none = ⊥
Closed (some (b, r)) = run bare r ≡ bare

prepend-Closed : (t : Bool) (c : ℕ) (s : Scan) → Closed s → Closed (prepend t c s)
prepend-Closed true c (some (b, r)) h = h
prepend-Closed true c none h = h
prepend-Closed false c s h = h

blank_bare : (q : Lex) (c : ℕ) → ends q c ≡ true → next q c ≡ bare
unfolding ends next
blank_bare bare c e = ground arith
blank_bare bare_escape c e = cc
blank_bare double c e = cc
blank_bare double_escape c e = cc
blank_bare single c e = cc

scan-Closed : (cs : Bytes) (q : Lex) → run q cs ≡ bare → Closed (scan q cs)
unfolding run
scan-Closed [] q e = subst (λ x. Closed (scan x [])) (sym e) (unfold scan in refl)
scan-Closed (c ∷ cs) q e = elim (Bool-cases (ends q c)) [
  | inl s ↦ rw (scan-cons q c cs, s) (subst (λ x. run x cs ≡ bare) (blank_bare q c s) e)
  | inr s ↦
      rw (scan-cons q c cs, s)
        (prepend-Closed (is_text q c) c (scan (next q c) cs) (scan-Closed cs (next q c) e))
]

abbrev ClosedReading : Reading → Type 0
ClosedReading nothing = Unit {0}
ClosedReading open_quote = ⊥
ClosedReading (reading b r) = run bare r ≡ bare

read_from-Closed : (cs : Bytes) → run bare cs ≡ bare → ClosedReading (read_from cs)
read_from-Closed [] e = tt
read_from-Closed (c ∷ cs) e = go (scan bare (c ∷ cs)) (scan-Closed (c ∷ cs) bare e)
  where
    go : (s : Scan) → Closed s → ClosedReading (reading_of s)
    go (some (b, r)) h = h
    go none h = h

run-skip_spaces : (cs : Bytes) → run bare cs ≡ bare → run bare (skip_spaces cs) ≡ bare
unfolding run skip_spaces
run-skip_spaces [] e = e
run-skip_spaces (c ∷ cs) e = elim (Bool-cases (is_space c)) [
  | inl s ↦
      rw s (
        run-skip_spaces cs
          (subst (λ x. run x cs ≡ bare) (blank_bare bare c (rw (ends_bare c) s)) e))
  | inr s ↦ rw s e
]

read_token-Closed : (line : Bytes) → run bare line ≡ bare → ClosedReading (read_token line)
unfolding read_token
read_token-Closed line e = read_from-Closed (skip_spaces line) (run-skip_spaces line e)

closed_lexes :
    {line : Bytes} {bs : List Bytes} {closed : Bool}
    → Lexes line bs closed
    → run bare line ≡ bare
    → closed ≡ true
closed_lexes (ended e) h = refl
closed_lexes {line} (broken e) h = absurd (rw e at (read_token-Closed line h))
closed_lexes {line} (more {r = r} e l) h = closed_lexes l (rw e at (read_token-Closed line h))

split_balanced :
    (line a r : Bytes) {bs : List Bytes} {closed : Bool}
    → split bare line ≡ some (a, r)
    → Lexes a bs closed
    → (line ≡ a ++ b';' ∷ r) × (closed ≡ true)
split_balanced line a r e l =
    let j : Joins bare line (some (a, r)) = subst (Joins bare line) e (split-Joins line bare) in
    (j.0, closed_lexes l j.1)

not_unterminated :
    (room : ℕ) (bs : List Bytes) (o : Option Tokenized)
    → Delivers room bs true o
    → o ≢ some unterminated_quote
not_unterminated room bs none d e = absurd d
not_unterminated room bs (some Tokenized.too_many_tokens) d e = cc
not_unterminated room bs (some Tokenized.unterminated_quote) d e = cc d.1
not_unterminated room bs (some (tokens m argv)) d e = cc

cut_closed :
    (line : Bytes) (m : Mem) (p room g : ℕ) (o : Option (Bytes × Bytes)) (s : Segment) {c : ℕ}
    → split bare line ≡ o
    → Cuts m p line o (some s)
    → s.cursor ≡ some c
    → length line < g
    → cli_tokenize g s.mem p room ≢ some unterminated_quote
cut_closed line m p room g none s e h c lt = cc (h.1, c)
cut_closed line m p room g (some (a, r)) s e h c lt =
    let (bs, closed, l) = lexes_total a in
    let (joined, shut) = split_balanced line a r e l in
    not_unterminated room bs (cli_tokenize g s.mem p room) (
      subst (λ b. Delivers room bs b (cli_tokenize g s.mem p room)) shut
        (cli_tokenize-Delivers g room s.mem p l h.1
          (omega (arith, ap length joined, length-append a (b';' ∷ r)))))

-- On a line that is a C string, with fuel above its length: where `cli_next_segment` cuts a segment
-- off at a `;`, tokenizing this segment where it stands, in the memory left by the cut, does not
-- return UNTERMINATED_QUOTE, whatever room `argv` has.
pub segment-closed :
    (line : Bytes) (f g room : ℕ) (m : Mem) (p : ℕ) {s : Segment} {c : ℕ}
    → IsString m p line
    → length line < f
    → length line < g
    → cli_next_segment f m (some p) ≡ some s
    → s.cursor ≡ some c
    → cli_tokenize g s.mem p room ≢ some unterminated_quote
segment-closed line f g room m p {s} u lf lg e c =
    cut_closed line m p room g (split bare line) s refl
      (subst (Cuts m p line (split bare line)) e (cli_next_segment-Cuts line f m p u lf)) c lg
