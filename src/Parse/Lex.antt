-- ===== src/Parse/Lex.antt =====
-- The quote and escape rules of shell/core/cli_parse.c as one state machine over bytes. It is the
-- specification that the in-place scanners are compared with.
pub mod Shrink
use stm32f746g_disco.Prelude.{
  ℕ, zero, suc, ◌+◌, ◌-◌, ◌*◌, ◌/◌, ◌%◌, ◌^◌, ◌≤◌, ◌<◌, min, max, bit_and, bit_or, bit_xor, ◌≡◌,
  refl, sym, ap, ap₂, ◌∙◌, subst, ◌≢◌, ◌↔◌, ◌⊎◌, inl, inr, Bool, true, false, not, ◌&&◌, ◌||◌,
  Option, none, some, List, [], ◌∷◌, ◌++◌, map, append_assoc, append-nil, arith, ltb, leb, ◌==◌,
  if◌then◌else◌, eq→==, ne→==, ==_iff, lt→ltb, le→ltb, Bool-cases, Option-cases, length, get_elem?,
  get_or, set, take, drop, replicate, length-append, length-set, length-take, length-drop,
  length-replicate, take-append-drop, get_or-set_self, get_or-set_ne, Bytes, codes, bytes_eq,
  bytes_eq_iff,
}

pub data Lex : Type 0 where
  bare bare_escape double double_escape single : Lex

abbrev pub is_space : ℕ → Bool
is_space c = c == b' ' || c == b'\t'

unfoldable pub next : Lex → ℕ → Lex
next bare c =
    if c == b'"'
    then double
    else if c == b'\''
    then single
    else if c == b'\\'
    then bare_escape
    else bare
next bare_escape c = bare
next double c = if c == b'"' then bare else if c == b'\\' then double_escape else double
next double_escape c = double
next single c = if c == b'\'' then bare else single

-- whether the byte belongs to the token: quotes and the backslashes that escape do not
unfoldable pub is_text : Lex → ℕ → Bool
is_text bare c = not (c == b'"' || c == b'\'' || c == b'\\')
is_text bare_escape c = true
is_text double c = not (c == b'"' || c == b'\\')
is_text double_escape c = true
is_text single c = not (c == b'\'')

unfoldable pub ends : Lex → ℕ → Bool
ends bare c = is_space c
ends _ c = false

abbrev pub Scan : Type 0
Scan = Option (Bytes × Bytes)

abbrev pub prepend : Bool → ℕ → Scan → Scan
prepend true c (some (b, r)) = some (c ∷ b, r)
prepend true c none = none
prepend false c s = s

-- The token from here on, and what stands behind it; `none` for a quote that is not closed.
unfoldable pub scan : Lex → Bytes → Scan
unfolding next is_text ends
scan bare [] = some ([], [])
scan bare_escape [] = some (b'\\' ∷ [], [])
scan double [] = none
scan double_escape [] = none
scan single [] = none
scan q (c ∷ cs) = if ends q c then some ([], cs) else prepend (is_text q c) c (scan (next q c) cs)

unfoldable pub skip_spaces : Bytes → Bytes
skip_spaces [] = []
skip_spaces (c ∷ cs) = if is_space c then skip_spaces cs else c ∷ cs

pub data Reading : Type 0 where
  -- no token is left
  nothing : Reading
  -- a quote is not closed
  open_quote : Reading
  reading : Bytes → Bytes → Reading

abbrev pub reading_of : Scan → Reading
reading_of none = open_quote
reading_of (some (b, r)) = reading b r

abbrev pub read_from : Bytes → Reading
read_from [] = nothing
read_from (c ∷ cs) = reading_of (scan bare (c ∷ cs))

-- The next token of a line.
unfoldable pub read_token : Bytes → Reading
unfolding skip_spaces
read_token line = read_from (skip_spaces line)

-- One byte of a scan, in every state.
pub scan-cons :
    (q : Lex) (c : ℕ) (cs : Bytes)
    → scan q (c ∷ cs)
      ≡ (if ends q c then some ([], cs) else prepend (is_text q c) c (scan (next q c) cs))
unfolding scan
scan-cons bare c cs = refl
scan-cons bare_escape c cs = refl
scan-cons double c cs = refl
scan-cons double_escape c cs = refl
scan-cons single c cs = refl

pub ends_bare : (c : ℕ) → ends bare c ≡ is_space c
unfolding ends
ends_bare c = refl
