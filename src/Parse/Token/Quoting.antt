-- ===== src/Parse/Token/Quoting.antt =====
-- Every list of arguments can be written on a line: in double quotes, with a backslash before each
-- byte, `cli_tokenize` gives back the same arguments.
use stm32f746g_disco.Prelude.{
  ℕ, ◌≤◌, ◌<◌, ◌≡◌, refl, true, Option, none, some, List, [], ◌∷◌, arith, length, Bytes,
}
use stm32f746g_disco.Memory.{Mem, IsString}
use stm32f746g_disco.Parse.Lex.{Lex, reading, scan, read_token}
use stm32f746g_disco.Parse.Token.{Tokenized, tokens, cli_tokenize}
use stm32f746g_disco.Parse.Token.Argv.{Lexes, ended, more, Delivers, Stored, cli_tokenize-Delivers}

abbrev pub escaped : Bytes → Bytes → Bytes
escaped [] rest = rest
escaped (c ∷ cs) rest = b'\\' ∷ c ∷ escaped cs rest

abbrev pub quoted : Bytes → Bytes → Bytes
quoted arg rest = b'"' ∷ escaped arg (b'"' ∷ b' ' ∷ rest)

abbrev pub command_line : List Bytes → Bytes
command_line [] = []
command_line (a ∷ as') = quoted a (command_line as')

scan-escaped :
    (arg rest : Bytes) → scan Lex.double (escaped arg (b'"' ∷ b' ' ∷ rest)) ≡ some (arg, rest)
unfolding scan
scan-escaped [] rest = refl
scan-escaped (c ∷ cs) rest = rw (scan-escaped cs rest)

read_token-quoted : (arg rest : Bytes) → read_token (quoted arg rest) ≡ reading arg rest
unfolding read_token scan
read_token-quoted arg rest = rw (scan-escaped arg rest)

command_line-Lexes : (args : List Bytes) → Lexes (command_line args) args true
unfolding read_token
command_line-Lexes [] = ended refl
command_line-Lexes (a ∷ as') =
    more (read_token-quoted a (command_line as')) (command_line-Lexes as')

argv_of :
    (room : ℕ) (bs : List Bytes) (o : Option Tokenized)
    → length bs ≤ room
    → Delivers room bs true o
    → (m : Mem) × (argv : List ℕ) × (wr : ℕ) × (o ≡ some (tokens m argv)) × Stored m wr argv bs
argv_of room bs (some (tokens m argv)) h d = (m, argv, d.2, refl, d.3)
argv_of room bs (some Tokenized.too_many_tokens) h d = absurd (omega arith)
argv_of room bs (some Tokenized.unterminated_quote) h d = cc
argv_of room bs none h d = absurd d

-- The line with each argument in double quotes, a backslash before every byte and a blank behind,
-- tokenizes in place to an `argv` of pointers at exactly these arguments, empty ones included, if
-- there are at most `max_argc` and the fuel exceeds the line.
pub cli_tokenize-command_line :
    (args : List Bytes) (f max_argc : ℕ) (m : Mem) (p : ℕ)
    → length args ≤ max_argc
    → IsString m p (command_line args)
    → length (command_line args) < f
    → (n : Mem) × (argv : List ℕ) × (wr : ℕ) × (cli_tokenize f m p max_argc ≡ some (tokens n argv))
      × Stored n wr argv args
cli_tokenize-command_line args f max_argc m p h u lt =
    argv_of max_argc args (cli_tokenize f m p max_argc) h
      (cli_tokenize-Delivers f max_argc m p (command_line-Lexes args) u lt)
