-- ===== src/Parse/Command/Accept.antt =====
-- `cli_parse` as a whole: what an accepted line is, and that the function returns.
use stm32f746g_disco.Prelude.{
  ◌⊎◌, [], ◌∷◌, ℕ, ◌+◌, ◌-◌, ◌≤◌, ◌<◌, ◌≡◌, true, false, some, List, ◌++◌, length, drop, Bytes,
}
use stm32f746g_disco.Parse.Lex.{skip_spaces}
use stm32f746g_disco.Parse.Command.{
  Cmd, Cmds, handler, mandatory, optional, max_subcmd_depth, ok, Parsed, is_raw, has_handler,
}
use stm32f746g_disco.Parse.Command.Descent.{Resolves, Tokens}

-- The whole line is read as these tokens; or, for a RAW command, the last one is what follows the
-- tokens in front of it, less the spaces.
abbrev pub Reads : Bytes → Cmd → List Bytes → Type 0
Reads line node all =
    Tokens line all []
    ⊎ ((is_raw node ≡ true)
        × (ts : List Bytes) × (r : Bytes) × Tokens line ts r
        × (all ≡ ts ++ skip_spaces r ∷ []))

-- The command that a line is dispatched to, the path of names that led there, and its arguments.
pub record Accepted (roots : Cmds) (line : Bytes) (cap : ℕ) (p : Parsed) : Type 0 where
  pub node : Cmd
  pub path : List Bytes
  pub args : List Bytes
  pub cmd_is : p.cmd ≡ some node
  pub runs : has_handler (handler node) ≡ true
  pub reads : Reads line node (path ++ args)
  pub resolves : Resolves roots path node
  pub level : p.cmd_level ≡ length path
  pub depth : p.cmd_level ≤ max_subcmd_depth + 1
  pub argv_is : p.argv ≡ drop (p.cmd_level - 1) (path ++ args)
  pub room : length (path ++ args) < cap
  pub enough : mandatory node ≤ length p.argv
  pub at_most : is_raw node ≡ false → length p.argv ≤ mandatory node + optional node

abbrev Good : Cmds → Bytes → ℕ → Parsed → Type 0
Good roots line cap p = p.status ≡ ok → Accepted roots line cap p
