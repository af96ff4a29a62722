-- ===== src/Parse/Token.antt =====
-- `next_token` and `cli_tokenize` of shell/core/cli_parse.c. The line is compacted in place: `rd`
-- reads the line and `wr`, behind it, writes the tokens into the same memory.
pub mod InPlace
pub mod Next
pub mod Argv
pub mod Quoting
use stm32f746g_disco.Prelude.{
  ℕ, zero, suc, ◌+◌, ◌-◌, ◌*◌, ◌/◌, ◌%◌, ◌^◌, ◌≤◌, ◌<◌, min, max, bit_and, bit_or, bit_xor, ◌≡◌,
  refl, sym, ap, ap₂, ◌∙◌, subst, ◌≢◌, ◌↔◌, ◌⊎◌, inl, inr, Bool, true, false, not, ◌&&◌, ◌||◌,
  Option, none, some, List, [], ◌∷◌, ◌++◌, map, append_assoc, append-nil, arith, ltb, leb, ◌==◌,
  if◌then◌else◌, eq→==, ne→==, ==_iff, lt→ltb, le→ltb, tests, leb→le, leb→lt, ltb→lt, ltb→le, ==→eq,
  ==→ne, Bool-cases, Option-cases, length, get_elem?, get_or, set, take, drop, replicate,
  length-append, length-set, length-take, length-drop, length-replicate, take-append-drop,
  get_or-set_self, get_or-set_ne, Bytes, codes, bytes_eq, bytes_eq_iff,
}
use stm32f746g_disco.Memory.{Mem, write}
use stm32f746g_disco.Parse.Lex.{is_space}

-- `quote`: 0, '"' or '\''
pub data Quote : Type 0 where
  bare double single : Quote

pub record Cursor : Type 0 where
  pub mem : Mem
  pub rd : ℕ
  pub wr : ℕ

-- what one round of the `for (;;)` does
pub data Step : Type 0 where
  stop : Cursor → Step
  fail : Step
  go : Quote → Cursor → Step

abbrev pub skip : Cursor → Cursor
skip s = record s { rd = suc s.rd }

-- `*wr++ = c; rd++`
abbrev pub take_byte : ℕ → Cursor → Cursor
take_byte c s = record { mem = write s.mem s.wr c; rd = suc s.rd; wr = suc s.wr }

-- `rd++` onto the escaped byte, then `*wr++ = *rd++`
abbrev pub take_escaped : Cursor → Cursor
take_escaped s = take_byte (s.mem (suc s.rd)) (skip s)

pub step_at : Quote → ℕ → Cursor → Step
step_at bare c s =
    if c == 0
    then stop s
    else if is_space c
    then stop (skip s)
    else if c == b'"'
    then go double (skip s)
    else if c == b'\''
    then go single (skip s)
    else if c == b'\\'
    then (if s.mem (suc s.rd) == 0
        then stop (record { mem = write s.mem s.wr b'\\'; rd = suc s.rd; wr = suc s.wr })
        else go bare (take_escaped s))
    else go bare (take_byte c s)
step_at double c s =
    if c == 0
    then fail
    else if c == b'"'
    then go bare (skip s)
    else if c == b'\\'
    then (if s.mem (suc s.rd) == 0 then fail else go double (take_escaped s))
    else go double (take_byte c s)
step_at single c s =
    if c == 0 then fail else if c == b'\'' then go bare (skip s) else go single (take_byte c s)

pub data Scanned : Type 0 where
  unterminated : Mem → Scanned
  scanned : Cursor → Scanned

-- The loop; `none` if the fuel runs out.
pub scan_loop : ℕ → Quote → Cursor → Option Scanned
scan_loop zero q s = none
scan_loop (suc f) q s = elim (step_at q (s.mem s.rd) s) [
  | stop t ↦ some (scanned t)
  | fail ↦ some (unterminated s.mem)
  | go q' t ↦ scan_loop f q' t
]

-- `while (is_space(*rd)) rd++`
pub skip_loop : ℕ → Mem → ℕ → Option ℕ
skip_loop zero m rd = none
skip_loop (suc f) m rd = elim (is_space (m rd)) [ true ↦ skip_loop f m (suc rd) | false ↦ some rd ]

pub data NextToken : Type 0 where
  -- returns 0, with `*rdp` set
  end_of_line : ℕ → NextToken
  -- returns a negative status; the cursors of the caller are not set
  error : Mem → NextToken
  -- returns 1: `*tok_out`, then the memory and both cursors
  token : ℕ → Cursor → NextToken

-- `*wr++ = '\0'` behind the loop
abbrev pub close : ℕ → Option Scanned → Option NextToken
close tok none = none
close tok (some (unterminated m)) = some (error m)
close tok (some (scanned t)) =
    some (token tok (record { mem = write t.mem t.wr 0; rd = t.rd; wr = suc t.wr }))

abbrev pub token_from : ℕ → Mem → ℕ → Option ℕ → Option NextToken
token_from f m wr none = none
token_from f m wr (some rd) =
    if m rd == 0
    then some (end_of_line rd)
    else close wr (scan_loop f bare (record { mem = m; rd = rd; wr = wr }))

pub next_token : ℕ → Cursor → Option NextToken
unfolding scan_loop skip_loop step_at
next_token f s = token_from f s.mem s.wr (skip_loop f s.mem s.rd)

-- `cli_tokenize`: a negative status, or `argv` (its length is the returned argc)
pub data Tokenized : Type 0 where
  unterminated_quote : Tokenized
  too_many_tokens : Tokenized
  tokens : Mem → List ℕ → Tokenized

-- The loop of `cli_tokenize`; `argv` holds the argc tokens stored so far. One fuel serves the rounds
-- and the scanning inside each.
pub tokenize_loop : ℕ → ℕ → Cursor → List ℕ → ℕ → Option Tokenized
tokenize_loop f zero s argv max_argc = none
tokenize_loop f (suc k) s argv max_argc = elim (next_token f s) [
  | none ↦ none
  | some (end_of_line rd) ↦ some (tokens s.mem argv)
  | some (error m) ↦ some unterminated_quote
  | some (token tok t) ↦ elim (leb max_argc (length argv)) [
    | true ↦ some too_many_tokens
    | false ↦ tokenize_loop f k t (argv ++ tok ∷ []) max_argc
  ]
]

pub cli_tokenize : ℕ → Mem → ℕ → ℕ → Option Tokenized
unfolding tokenize_loop next_token
cli_tokenize f m line max_argc =
    tokenize_loop f f (record { mem = m; rd = line; wr = line }) [] max_argc
