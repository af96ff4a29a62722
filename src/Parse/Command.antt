-- ===== src/Parse/Command.antt =====
-- `cli_parse` of shell/core/cli_parse.c: the walk down the command tree and the check of the
-- arguments. Tokens stand for themselves here: `Token.Next` shows that `next_token` leaves each of
-- them as a C string and the unread tail of the line as it was.
pub mod Descent
mod Arity
pub mod Accept
pub mod Fuel
use stm32f746g_disco.Prelude.{
  ℕ, zero, suc, ◌+◌, ◌-◌, ◌*◌, ◌/◌, ◌%◌, ◌^◌, ◌≤◌, ◌<◌, min, max, bit_and, bit_or, bit_xor, ◌≡◌,
  refl, sym, ap, ap₂, ◌∙◌, subst, ◌≢◌, ◌↔◌, ◌⊎◌, inl, inr, Bool, true, false, not, ◌&&◌, ◌||◌,
  Option, none, some, List, [], ◌∷◌, ◌++◌, map, append_assoc, append-nil, arith, ltb, leb, ◌==◌,
  if◌then◌else◌, eq→==, ne→==, ==_iff, lt→ltb, le→ltb, tests, leb→le, leb→lt, ltb→lt, ltb→le, ==→eq,
  ==→ne, Bool-cases, Option-cases, some_eq, length, get_elem?, get_or, set, take, drop, replicate,
  length-append, length-set, length-take, length-drop, length-replicate, take-append-drop,
  get_or-set_self, get_or-set_ne, Bytes, codes, bytes_eq, bytes_eq_iff,
}
use stm32f746g_disco.Parse.Lex.{Reading, nothing, open_quote, reading, skip_spaces, read_token}

-- `struct cli_cmd`. A handler is known by a number; a set of subcommands ends at its sentinel.
mutual
  pub data Cmd : Type 0 where
    command : Bytes → Subcommands → Option ℕ → ℕ → ℕ → Cmd

  pub data Subcommands : Type 0 where
    leaf : Subcommands
    group : Cmds → Subcommands

  pub data Cmds : Type 0 where
    end : Cmds
    entry : Cmd → Cmds → Cmds

abbrev pub name : Cmd → Bytes
name (command n s h m o) = n

abbrev pub subcmds : Cmd → Subcommands
subcmds (command n s h m o) = s

abbrev pub handler : Cmd → Option ℕ
handler (command n s h m o) = h

abbrev pub mandatory : Cmd → ℕ
mandatory (command n s h m o) = m

abbrev pub optional : Cmd → ℕ
optional (command n s h m o) = o

-- CLI_MAX_ARGC, CLI_MAX_SUBCMD_DEPTH, CLI_ARG_RAW
abbrev pub max_argc : ℕ
max_argc = 20

abbrev pub max_subcmd_depth : ℕ
max_subcmd_depth = 8

abbrev pub arg_raw : ℕ
arg_raw = 0xff

pub data Status : Type 0 where
  ok empty not_found no_handler wrong_args too_many_tokens nesting_too_deep : Status
  unterminated_quote : Status

-- The status, and `struct cli_parse_result`: `argv` is the handler's, `argc` its length.
pub record Parsed : Type 0 where
  pub status : Status
  pub cmd : Option Cmd
  pub cmd_level : ℕ
  pub argv : List Bytes

abbrev pub failed : Status → Parsed
failed s = record { status = s; cmd = none; cmd_level = 0; argv = [] }

-- `match_root` and `match_sub`
pub lookup : Cmds → Bytes → Option Cmd
unfolding bytes_eq
lookup end tok = none
lookup (entry c cs) tok = if bytes_eq (name c) tok then some c else lookup cs tok

-- A part of the function: it goes on with a value, or returns, or runs out of fuel.
pub data Partial {ℓ} (A : Type ℓ) : Type ℓ where
  value : A → Partial A
  returns : Parsed → Partial A
  stuck : Partial A

infixl 5 ◌>>=◌
abbrev pub ◌>>=◌ {ℓ κ} : {A : Type ℓ} {B : Type κ} → Partial A → (A → Partial B) → Partial B
value a >>= f = f a
returns p >>= f = returns p
stuck >>= f = stuck

-- the locals of the function: the node, its level, the tokens in `argv`, the unread line
pub record Walk : Type 0 where
  pub node : Cmd
  pub cmd_level : ℕ
  pub argv : List Bytes
  pub rest : Bytes

-- `argv[argc++] = tok`
abbrev pub store : Bytes → Bytes → Walk → Walk
store tok r w = record w { argv = w.argv ++ tok ∷ []; rest = r }

-- What is done with the token behind it: it names a subcommand, or is the first argument. The
-- Boolean says whether the loop goes on.
abbrev pub enter : Walk → Bytes → Bytes → Option Cmd → Partial (Bool × Walk)
enter w tok r none = value (false, store tok r w)
enter w tok r (some sub) =
    if leb max_subcmd_depth (w.cmd_level - 1)
    then returns (failed nesting_too_deep)
    else value (true, record (store tok r w) { node = sub; cmd_level = w.cmd_level + 1 })

-- one round of the descent, on what `next_token` gives
abbrev pub descend_on : Cmds → Walk → Reading → Partial (Bool × Walk)
descend_on cs w nothing = value (false, record w { rest = [] })
descend_on cs w open_quote = returns (failed unterminated_quote)
descend_on cs w (reading tok r) =
    if leb max_argc (length w.argv)
    then returns (failed too_many_tokens)
    else enter w tok r (lookup cs tok)

-- The rest of a loop, behind a round that says whether it goes on.
abbrev pub onward : (Walk → Partial Walk) → Partial (Bool × Walk) → Partial Walk
onward k (value (true, w)) = k w
onward k (value (false, w)) = value w
onward k (returns p) = returns p
onward k stuck = stuck

-- `while (cmd->subcmds != NULL)`
pub descend : ℕ → Walk → Partial Walk
descend zero w = stuck
descend (suc f) w = elim (subcmds w.node) [
  | leaf ↦ value w
  | group cs ↦ onward (descend f) (descend_on cs w (read_token w.rest))
]

-- one round of the loops that collect arguments, on what `next_token` gives
abbrev pub collect_on : Walk → Reading → Partial (Bool × Walk)
collect_on w nothing = value (false, record w { rest = [] })
collect_on w open_quote = returns (failed unterminated_quote)
collect_on w (reading tok r) =
    if leb max_argc (length w.argv)
    then returns (failed too_many_tokens)
    else value (true, store tok r w)

-- `while (need > 0)`
pub collect_needed : ℕ → Walk → Partial Walk
collect_needed zero w = value w
collect_needed (suc need) w = onward (collect_needed need) (collect_on w (read_token w.rest))

-- `for (;;)` of the normal branch
pub collect_all : ℕ → Walk → Partial Walk
collect_all zero w = stuck
collect_all (suc f) w = onward (collect_all f) (collect_on w (read_token w.rest))

abbrev pub handler_base : Walk → ℕ
handler_base w = w.cmd_level - 1

abbrev pub is_leaf : Subcommands → Bool
is_leaf leaf = true
is_leaf (group cs) = false

abbrev pub is_raw : Cmd → Bool
is_raw c = optional c == arg_raw && is_leaf (subcmds c)

abbrev pub with_tail : ℕ → Walk → Bytes → Partial Walk
with_tail argv_cap w [] = value (record w { rest = [] })
with_tail argv_cap w (c ∷ cs) =
    if leb (argv_cap - 1) (length w.argv)
    then returns (failed too_many_tokens)
    else value (store (c ∷ cs) [] w)

-- The rest of the line as one argument, if the mandatory ones are there.
pub take_tail : ℕ → Walk → Partial Walk
take_tail argv_cap w =
    if leb (mandatory w.node) (length w.argv - handler_base w)
    then with_tail argv_cap w (skip_spaces w.rest)
    else value w

pub collect : ℕ → ℕ → Walk → Partial Walk
unfolding collect_needed collect_all take_tail
collect f argv_cap w =
    if is_raw w.node
    then collect_needed (mandatory w.node - 1) w >>= take_tail argv_cap
    else collect_all f w

abbrev pub result : Status → Walk → Parsed
result s w = record {
  status = s;
  cmd = some w.node;
  cmd_level = w.cmd_level;
  argv = drop (handler_base w) w.argv;
}

-- the checks behind the collection of the arguments
pub check_args : Walk → Parsed
check_args w =
    let argc = length (drop (handler_base w) w.argv) in
    if ltb argc (mandatory w.node)
    then result wrong_args w
    else if not (is_raw w.node) && ltb (mandatory w.node + optional w.node) argc
    then result wrong_args w
    else result ok w

abbrev pub has_handler : Option ℕ → Bool
has_handler none = false
has_handler (some h) = true

pub finish : ℕ → ℕ → Walk → Partial Parsed
unfolding collect check_args
finish f argv_cap w =
    if has_handler (handler w.node)
    then (collect f argv_cap w >>= λ v. value (check_args v))
    else returns (result no_handler w)

abbrev pub start : Cmd → Bytes → Bytes → Walk
start c tok r = record { node = c; cmd_level = 1; argv = tok ∷ []; rest = r }

abbrev pub from_root : ℕ → ℕ → Bytes → Bytes → Option Cmd → Partial Parsed
from_root f argv_cap tok r none =
    returns (record { status = not_found; cmd = none; cmd_level = 0; argv = tok ∷ [] })
from_root f argv_cap tok r (some c) = descend f (start c tok r) >>= finish f argv_cap

abbrev pub outcome : Partial Parsed → Option Parsed
outcome (value p) = some p
outcome (returns p) = some p
outcome stuck = none

abbrev pub parse_on : ℕ → Cmds → ℕ → Reading → Option Parsed
parse_on f roots argv_cap nothing = some (failed empty)
parse_on f roots argv_cap open_quote = some (failed unterminated_quote)
parse_on f roots argv_cap (reading tok r) = outcome (from_root f argv_cap tok r (lookup roots tok))

-- `none` if the fuel runs out
unfoldable pub cli_parse : ℕ → Cmds → Bytes → ℕ → Option Parsed
unfolding descend finish lookup
cli_parse f roots line argv_cap = parse_on f roots argv_cap (read_token line)
