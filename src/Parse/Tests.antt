-- ===== src/Parse/Tests.antt =====
-- Runs of the parser of shell/core/cli_parse.c on concrete lines.
use stm32f746g_disco.Prelude.{
  ℕ, ◌≡◌, refl, ◌≢◌, Bool, true, false, Option, none, some, List, [], ◌∷◌, arith, Bytes, codes,
}
use stm32f746g_disco.Memory.{Mem, image, image-IsString}
use stm32f746g_disco.Parse.Lex.{scan, Lex, read_token}
use stm32f746g_disco.Parse.Token.{next_token, unterminated_quote, tokens, cli_tokenize}
use stm32f746g_disco.Parse.Token.Next.{Reports, next_token-Reports}
use stm32f746g_disco.Parse.Token.Argv.{Lexes, ended, more, Delivers, Stored, cli_tokenize-Delivers}
use stm32f746g_disco.Parse.Token.Quoting.{command_line, cli_tokenize-command_line}
use stm32f746g_disco.Parse.Segment.{cut_at, cli_next_segment}
use stm32f746g_disco.Parse.Segment.Split.{split, Cuts, cli_next_segment-Cuts}
use stm32f746g_disco.Parse.Segment.Balance.{segment-closed}
use stm32f746g_disco.Parse.Background.{cli_segment_is_background}
use stm32f746g_disco.Parse.Command.{
  Cmd, command, leaf, group, Cmds, end, entry, ok, Parsed, cli_parse,
}
use stm32f746g_disco.Parse.Command.Fuel.{cli_parse-returns}

abbrev level : Cmd
level = command (codes "level") leaf (some 1) 1 1

abbrev roots : Cmds
roots = entry (command (codes "log") (group (entry level end)) none 0 0) end

abbrev log_line : Bytes
log_line = codes "log level 'a b'"

abbrev log_parsed : Parsed
log_parsed = record {
  status = ok;
  cmd = some level;
  cmd_level = 2;
  argv = codes "level" ∷ codes "a b" ∷ [];
}

cli_parse-returns_example : (p : Parsed) × (cli_parse 20 roots log_line 22 ≡ some p)
cli_parse-returns_example = cli_parse-returns 20 22 roots log_line (omega arith)

abbrev quoted_line : Bytes
quoted_line = codes "a \"b c\""

quoted_line-Lexes : Lexes quoted_line (codes "a" ∷ codes "b c" ∷ []) true
unfolding read_token scan
quoted_line-Lexes = more refl (more refl (ended refl))

cli_tokenize-Delivers_example :
    Delivers 4 (codes "a" ∷ codes "b c" ∷ []) true (cli_tokenize 10 (image quoted_line) 0 4)
cli_tokenize-Delivers_example =
    cli_tokenize-Delivers 10 4 (image quoted_line) 0 quoted_line-Lexes
      (image-IsString quoted_line refl) (omega arith)

next_token-Reports_example :
    Reports
      (record { mem = image quoted_line; rd = 0; wr = 0 })
      (read_token quoted_line)
      (next_token 10 (record { mem = image quoted_line; rd = 0; wr = 0 }))
next_token-Reports_example =
    next_token-Reports quoted_line 10 (record { mem = image quoted_line; rd = 0; wr = 0 })
      (image-IsString quoted_line refl) (λ ne. omega arith) (omega arith)

abbrev two_args : List Bytes
two_args = codes "a b" ∷ [] ∷ []

cli_tokenize-command_line_example :
    (n : Mem) × (argv : List ℕ) × (wr : ℕ) × (cli_tokenize 20 (image (command_line two_args)) 0 20
      ≡ some (tokens n argv))
    × Stored n wr argv two_args
cli_tokenize-command_line_example =
    cli_tokenize-command_line two_args 20 20 (image (command_line two_args)) 0 (omega arith)
      (image-IsString (command_line two_args) refl) (omega arith)

abbrev two_segments : Bytes
two_segments = codes "a ';' ;b"

cli_next_segment-Cuts_example :
    Cuts
      (image two_segments)
      0
      two_segments
      (split Lex.bare two_segments)
      (cli_next_segment 10 (image two_segments) (some 0))
cli_next_segment-Cuts_example =
    cli_next_segment-Cuts two_segments 10 (image two_segments) 0 (image-IsString two_segments refl)
      (omega arith)

segment-closed_example :
    cli_tokenize 10 (cut_at (image two_segments) 0 (some 6)).mem 0 20 ≢ some unterminated_quote
unfolding cli_next_segment image
segment-closed_example =
    segment-closed two_segments 10 10 20 (image two_segments) 0 (image-IsString two_segments refl)
      (omega arith) (omega arith) refl refl

abbrev verdict : Option (Mem × Bool) → Option Bool
verdict none = none
verdict (some (m, b)) = some b

trailing : verdict (cli_segment_is_background 20 (image (codes "cmd & "))) ≡ some true
unfolding cli_segment_is_background image
trailing = refl

quoted : verdict (cli_segment_is_background 20 (image (codes "echo \"a&\""))) ≡ some false
unfolding cli_segment_is_background image
quoted = refl

doubled : verdict (cli_segment_is_background 20 (image (codes "cmd &&"))) ≡ some false
unfolding cli_segment_is_background image
doubled = refl

-- a backslash behind the `&` does not take its meaning
before_backslash : verdict (cli_segment_is_background 20 (image (codes "cmd &\\"))) ≡ some true
unfolding cli_segment_is_background image
before_backslash = refl
