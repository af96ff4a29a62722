-- ===== src/Parse/Token/Argv.antt =====
-- `cli_tokenize` against the tokens that the state machine of `Lex` reads off a line.
use stm32f746g_disco.Prelude.{
  ℕ, zero, suc, ◌+◌, ◌≤◌, ◌<◌, ◌≡◌, refl, ap, subst, ◌≢◌, inl, inr, Bool, true, false, Option, none,
  some, List, [], ◌∷◌, ◌++◌, append_assoc, append-nil, arith, leb, tests, Bool-cases, length,
  length-append, Bytes,
}
use stm32f746g_disco.Memory.{Mem, IsString, SameBelow, IsString-SameBelow}
use stm32f746g_disco.Parse.Lex.{Reading, nothing, open_quote, reading, read_token}
use stm32f746g_disco.Parse.Lex.Shrink.{length-read_token}
use stm32f746g_disco.Parse.Token.{
  Cursor, NextToken, end_of_line, error, token, next_token, Tokenized, unterminated_quote,
  too_many_tokens, tokens, tokenize_loop, cli_tokenize,
}
use stm32f746g_disco.Parse.Token.Next.{TokenAt, Reports, next_token-Reports}

-- The line reads as these tokens, and then ends; or, with `false`, stops at a quote that is not
-- closed.
pub data Lexes : Bytes → List Bytes → Bool → Type 0 where
  ended : {line : Bytes} → read_token line ≡ nothing → Lexes line [] true
  broken : {line : Bytes} → read_token line ≡ open_quote → Lexes line [] false
  more :
      {line b r : Bytes} {bs : List Bytes} {closed : Bool}
      → read_token line ≡ reading b r
      → Lexes r bs closed
      → Lexes line (b ∷ bs) closed

-- Each pointer of `argv` points at its token, and every token ends below the write cursor.
abbrev pub Stored : Mem → ℕ → List ℕ → List Bytes → Type 0
Stored m wr [] [] = Unit {0}
Stored m wr (p ∷ ps) (b ∷ bs) = IsString m p b × (p + length b < wr) × Stored m wr ps bs
Stored m wr [] (b ∷ bs) = ⊥
Stored m wr (p ∷ ps) [] = ⊥

Stored-SameBelow :
    (ps : List ℕ) (bs : List Bytes) (m n : Mem) (wr wr' : ℕ)
    → wr ≤ wr'
    → SameBelow wr m n
    → Stored m wr ps bs
    → Stored n wr' ps bs
Stored-SameBelow [] [] m n wr wr' le same s = tt
Stored-SameBelow (p ∷ ps) (b ∷ bs) m n wr wr' le same s = (
  IsString-SameBelow b m n p wr s.1 same s.0,
  omega (arith, s.1),
  Stored-SameBelow ps bs m n wr wr' le same s.2,
)
Stored-SameBelow [] (b ∷ bs) m n wr wr' le same s = s
Stored-SameBelow (p ∷ ps) [] m n wr wr' le same s = s

Stored-concat :
    (ps : List ℕ) (bs : List Bytes) (m : Mem) (wr p : ℕ) (b : Bytes)
    → Stored m wr ps bs
    → IsString m p b
    → p + length b < wr
    → Stored m wr (ps ++ p ∷ []) (bs ++ b ∷ [])
Stored-concat [] [] m wr p b s u lt = (u, lt, tt)
Stored-concat (q ∷ ps) (c ∷ bs) m wr p b s u lt = (s.0, s.1, Stored-concat ps bs m wr p b s.2 u lt)
Stored-concat [] (c ∷ bs) m wr p b s u lt = absurd s
Stored-concat (q ∷ ps) [] m wr p b s u lt = absurd s

length-Stored :
    (ps : List ℕ) (bs : List Bytes) (m : Mem) (wr : ℕ) → Stored m wr ps bs → length ps ≡ length bs
length-Stored [] [] m wr s = refl
length-Stored (p ∷ ps) (b ∷ bs) m wr s = ap suc (length-Stored ps bs m wr s.2)
length-Stored [] (b ∷ bs) m wr s = absurd s
length-Stored (p ∷ ps) [] m wr s = absurd s

-- What `cli_tokenize` returns for tokens `bs`, with `closed` for no open quote: the first error in
-- the order of the line, or all the tokens.
abbrev pub Delivers : ℕ → List Bytes → Bool → Option Tokenized → Type 0
Delivers room bs closed (some too_many_tokens) = room < length bs
Delivers room bs closed (some unterminated_quote) = (length bs ≤ room) × (closed ≡ false)
Delivers room bs closed (some (tokens m ps)) =
    (length bs ≤ room) × (closed ≡ true) × (wr : ℕ) × Stored m wr ps bs
Delivers room bs closed none = ⊥

abbrev Loaded : Bytes → Cursor → Type 0
Loaded line s = IsString s.mem s.rd line × (line ≢ [] → s.wr ≤ s.rd)

-- The result of one call of `next_token`, with what the line reads as.
TokenAt-of :
    (s : Cursor) (b r : Bytes) (o : Option NextToken)
    → Reports s (reading b r) o
    → (tok : ℕ) × (t : Cursor) × (o ≡ some (token tok t)) × TokenAt s tok t b r
TokenAt-of s b r (some (token tok t)) h = (tok, t, refl, h)
TokenAt-of s b r (some (end_of_line _)) h = absurd h
TokenAt-of s b r (some (error _)) h = absurd h
TokenAt-of s b r none h = absurd h

end_of :
    (s : Cursor) (o : Option NextToken)
    → Reports s nothing o
    → (rd : ℕ) × (o ≡ some (end_of_line rd))
end_of s (some (token tok t)) h = absurd h
end_of s (some (end_of_line rd)) h = (rd, refl)
end_of s (some (error _)) h = absurd h
end_of s none h = absurd h

error_of :
    (s : Cursor) (o : Option NextToken) → Reports s open_quote o → (m : Mem) × (o ≡ some (error m))
error_of s (some (token tok t)) h = absurd h
error_of s (some (end_of_line rd)) h = absurd h
error_of s (some (error m)) h = (m, refl)
error_of s none h = absurd h

-- The token just read joins those in `argv`.
Stored-TokenAt :
    (s t : Cursor) (tok : ℕ) (b r : Bytes) (ps : List ℕ) (past : List Bytes)
    → Stored s.mem s.wr ps past
    → TokenAt s tok t b r
    → Stored t.mem t.wr (ps ++ tok ∷ []) (past ++ b ∷ [])
Stored-TokenAt s t tok b r ps past st at =
    Stored-concat ps past t.mem t.wr tok b
      (Stored-SameBelow ps past s.mem t.mem s.wr t.wr (omega (arith, at.moved)) at.same st) at.text
      (omega (arith, at.moved, at.start))

tokenize_loop-Delivers :
    {line : Bytes} {bs : List Bytes} {closed : Bool} (f k room : ℕ) (s : Cursor) (ps : List ℕ)
    (past : List Bytes)
    → Lexes line bs closed
    → Loaded line s
    → length line < f
    → length line < k
    → length ps ≤ room
    → Stored s.mem s.wr ps past
    → Delivers room (past ++ bs) closed (tokenize_loop f k s ps room)
unfolding tokenize_loop
tokenize_loop-Delivers f zero room s ps past l u lf lk lr st = absurd (omega arith)
tokenize_loop-Delivers {line} f (suc k) room s ps past (ended e) u lf lk lr st =
    let (rd, h) = end_of s (next_token f s) (rw e at (next_token-Reports line f s u.0 u.1 lf)) in
    rw (h, tokenize_loop, append-nil)
      (omega (arith, length-Stored ps past s.mem s.wr st), refl, s.wr, st)
tokenize_loop-Delivers {line} f (suc k) room s ps past (broken e) u lf lk lr st =
    let (m, h) = error_of s (next_token f s) (rw e at (next_token-Reports line f s u.0 u.1 lf)) in
    rw (h, tokenize_loop, append-nil) (omega (arith, length-Stored ps past s.mem s.wr st), refl)
tokenize_loop-Delivers {line} {closed = closed} f (suc k) room s ps past
      (more {b = b} {r = r} {bs = bs} e l) u lf lk lr st =
    let (tok, t, h, at) =
      TokenAt-of s b r (next_token f s) (rw e at (next_token-Reports line f s u.0 u.1 lf)) in
    let shorter = length-read_token line b r e in
    let stored = Stored-TokenAt s t tok b r ps past st at in
    elim (Bool-cases (leb room (length ps))) [
      | inl full ↦
          rw (h, tokenize_loop)
            (rw full
              (omega (tests, length-Stored ps past s.mem s.wr st, length-append past (b ∷ bs))))
      | inr fits ↦
          rw (h, tokenize_loop)
            (rw fits (
              subst (λ x. Delivers room x closed (tokenize_loop f k t (ps ++ tok ∷ []) room))
                (append_assoc past (b ∷ []) bs)
                (tokenize_loop-Delivers f k room t (ps ++ tok ∷ []) (past ++ b ∷ []) l
                  (at.unread, λ ne. omega (arith, at.behind ne)) (omega arith) (omega arith)
                  (omega (tests, length-append ps (tok ∷ []))) stored)))
    ]

-- `cli_tokenize` on a line that is a C string, with more fuel than the line is long, returns. Where
-- the line reads as the tokens `bs` it returns TOO_MANY_TOKENS exactly if these are more than
-- `max_argc`, else UNTERMINATED_QUOTE exactly if a quote stays open behind them, and else an `argv` of
-- pointers at these tokens in order, each a C string in the compacted line.
pub cli_tokenize-Delivers :
    {line : Bytes} {bs : List Bytes} {closed : Bool} (f max_argc : ℕ) (m : Mem) (p : ℕ)
    → Lexes line bs closed
    → IsString m p line
    → length line < f
    → Delivers max_argc bs closed (cli_tokenize f m p max_argc)
unfolding cli_tokenize
cli_tokenize-Delivers f max_argc m p l u lt =
    tokenize_loop-Delivers f f max_argc (record { mem = m; rd = p; wr = p }) [] [] l
      (u, λ _. omega arith) lt lt (omega arith) tt

abbrev SomeTokens : Bytes → Type 0
SomeTokens line = (bs : List Bytes) × (closed : Bool) × Lexes line bs closed

some_tokens :
    (line : Bytes) (t : Reading)
    → read_token line ≡ t
    → ((b r : Bytes) → t ≡ reading b r → SomeTokens r)
    → SomeTokens line
some_tokens line nothing e ih = ([], true, ended e)
some_tokens line open_quote e ih = ([], false, broken e)
some_tokens line (reading b r) e ih =
    let (bs, closed, l) = ih b r refl in (b ∷ bs, closed, more e l)

tokens_within : (n : ℕ) (line : Bytes) → length line < n → SomeTokens line
tokens_within zero line lt = absurd (omega (arith, lt))
tokens_within (suc n) line lt =
    some_tokens line (read_token line) refl
      (λ b r e. tokens_within n r (omega (arith, lt, length-read_token line b r e)))

-- Every line reads as some tokens.
pub lexes_total : (line : Bytes) → (bs : List Bytes) × (closed : Bool) × Lexes line bs closed
lexes_total line = tokens_within (suc (length line)) line (omega arith)
