-- ===== src/Parse/Command/Fuel.antt =====
-- `cli_parse` returns: every round of its loops reads a token, which shortens the line.
use stm32f746g_disco.Prelude.{
  ℕ, zero, suc, ◌-◌, ◌≤◌, ◌<◌, ◌≡◌, refl, inl, inr, Bool, true, false, Option, none, some, [], ◌∷◌,
  arith, leb, Bool-cases, length, Bytes,
}
use stm32f746g_disco.Parse.Lex.{Reading, nothing, open_quote, reading, read_token, skip_spaces}
use stm32f746g_disco.Parse.Lex.Shrink.{ReadWithin, read_token-Within}
use stm32f746g_disco.Parse.Command.{
  Cmd, Subcommands, leaf, group, Cmds, subcmds, handler, mandatory, max_argc, max_subcmd_depth,
  Parsed, lookup, Partial, value, returns, stuck, ◌>>=◌, Walk, enter, descend_on, descend,
  collect_on, onward, collect_needed, collect_all, handler_base, is_raw, with_tail, take_tail,
  collect, start, check_args, has_handler, finish, from_root, outcome, parse_on, cli_parse,
}

-- A part that does not run out of fuel, and leaves at most `n` bytes of the line.
abbrev Leaves : ℕ → Partial Walk → Type 0
Leaves n (value w) = length w.rest ≤ n
Leaves n (returns p) = Unit {0}
Leaves n stuck = ⊥

abbrev Round : ℕ → Partial (Bool × Walk) → Type 0
Round n (value (true, w)) = length w.rest < n
Round n (value (false, w)) = length w.rest ≤ n
Round n (returns p) = Unit {0}
Round n stuck = ⊥

enter-Round :
    (w : Walk) (tok r : Bytes) (o : Option Cmd) (n : ℕ) → length r < n → Round n (enter w tok r o)
enter-Round w tok r none n h = omega arith
enter-Round w tok r (some sub) n h = elim (Bool-cases (leb max_subcmd_depth (w.cmd_level - 1))) [
  | inl deep ↦ rw deep tt
  | inr shallow ↦ rw shallow h
]

descend_on-Round :
    (cs : Cmds) (w : Walk) (t : Reading) (n : ℕ) → ReadWithin n t → Round n (descend_on cs w t)
descend_on-Round cs w nothing n h = omega arith
descend_on-Round cs w open_quote n h = tt
descend_on-Round cs w (reading tok r) n h = elim (Bool-cases (leb max_argc (length w.argv))) [
  | inl full ↦ rw full tt
  | inr room ↦ rw room (enter-Round w tok r (lookup cs tok) n h)
]

collect_on-Round : (w : Walk) (t : Reading) (n : ℕ) → ReadWithin n t → Round n (collect_on w t)
collect_on-Round w nothing n h = omega arith
collect_on-Round w open_quote n h = tt
collect_on-Round w (reading tok r) n h = elim (Bool-cases (leb max_argc (length w.argv))) [
  | inl full ↦ rw full tt
  | inr room ↦ rw room h
]

onward-Leaves :
    (k : Walk → Partial Walk) (m : Partial (Bool × Walk)) (n : ℕ)
    → ((v : Walk) → length v.rest < n → Leaves n (k v))
    → Round n m
    → Leaves n (onward k m)
onward-Leaves k (value (true, v)) n later h = later v h
onward-Leaves k (value (false, v)) n later h = h
onward-Leaves k (returns p) n later h = tt
onward-Leaves k stuck n later h = h

Leaves-le : (m : Partial Walk) (a b : ℕ) → a ≤ b → Leaves a m → Leaves b m
Leaves-le (value w) a b h l = omega arith
Leaves-le (returns p) a b h l = tt
Leaves-le stuck a b h l = l

descend-Leaves : (f : ℕ) (w : Walk) → length w.rest < f → Leaves (length w.rest) (descend f w)
unfolding descend
descend-Leaves zero w h = absurd (omega arith)
descend-Leaves (suc f) w h = go (subcmds w.node) refl (λ v lt. descend-Leaves f v (omega arith))
  where
    go :
        (s : Subcommands)
        → subcmds w.node ≡ s
        → ((v : Walk) → length v.rest < length w.rest → Leaves (length v.rest) (descend f v))
        → Leaves (length w.rest) (descend (suc f) w)
    go leaf e later = rw (e, descend) (omega arith)
    go (group cs) e later =
        rw (e, descend)
          (onward-Leaves (descend f) (descend_on cs w (read_token w.rest)) (length w.rest)
            (λ v lt.
              Leaves-le (descend f v) (length v.rest) (length w.rest) (omega arith) (later v lt))
            (descend_on-Round cs w (read_token w.rest) (length w.rest) (read_token-Within w.rest)))

collect_all-Leaves :
    (f : ℕ) (w : Walk) → length w.rest < f → Leaves (length w.rest) (collect_all f w)
unfolding collect_all
collect_all-Leaves zero w h = absurd (omega arith)
collect_all-Leaves (suc f) w h =
    onward-Leaves (collect_all f) (collect_on w (read_token w.rest)) (length w.rest)
      (λ v lt.
        Leaves-le (collect_all f v) (length v.rest) (length w.rest) (omega arith)
          (collect_all-Leaves f v (omega arith)))
      (collect_on-Round w (read_token w.rest) (length w.rest) (read_token-Within w.rest))

collect_needed-Leaves : (need : ℕ) (w : Walk) → Leaves (length w.rest) (collect_needed need w)
unfolding collect_needed
collect_needed-Leaves zero w = omega arith
collect_needed-Leaves (suc need) w =
    onward-Leaves (collect_needed need) (collect_on w (read_token w.rest)) (length w.rest)
      (λ v lt.
        Leaves-le (collect_needed need v) (length v.rest) (length w.rest) (omega arith)
          (collect_needed-Leaves need v))
      (collect_on-Round w (read_token w.rest) (length w.rest) (read_token-Within w.rest))

abbrev Ends : Partial Walk → Type 0
Ends (value w) = Unit {0}
Ends (returns p) = Unit {0}
Ends stuck = ⊥

Leaves-Ends : (m : Partial Walk) (n : ℕ) → Leaves n m → Ends m
Leaves-Ends (value w) n h = tt
Leaves-Ends (returns p) n h = tt
Leaves-Ends stuck n h = h

take_tail-Ends : (cap : ℕ) (w : Walk) → Ends (take_tail cap w)
unfolding take_tail
take_tail-Ends cap w = elim (Bool-cases (leb (mandatory w.node) (length w.argv - handler_base w))) [
  | inl enough ↦ rw enough (tail (skip_spaces w.rest))
  | inr few ↦ rw few tt
]
  where
    tail : (rest : Bytes) → Ends (with_tail cap w rest)
    tail [] = tt
    tail (c ∷ cs) = elim (Bool-cases (leb (cap - 1) (length w.argv))) [
      | inl full ↦ rw full tt
      | inr room ↦ rw room tt
    ]

bind-Ends :
    (m : Partial Walk) (k : Walk → Partial Walk)
    → Ends m
    → ((w : Walk) → Ends (k w))
    → Ends (m >>= k)
bind-Ends (value w) k h later = later w
bind-Ends (returns p) k h later = tt
bind-Ends stuck k h later = h

collect-Ends : (f cap : ℕ) (w : Walk) → length w.rest < f → Ends (collect f cap w)
unfolding collect
collect-Ends f cap w lt = elim (Bool-cases (is_raw w.node)) [
  | inl raw ↦ rw raw (
      bind-Ends (collect_needed (mandatory w.node - 1) w) (take_tail cap)
        (Leaves-Ends (collect_needed (mandatory w.node - 1) w) (length w.rest)
          (collect_needed-Leaves (mandatory w.node - 1) w))
        (take_tail-Ends cap))
  | inr plain ↦ rw plain (Leaves-Ends (collect_all f w) (length w.rest) (collect_all-Leaves f w lt))
]

abbrev Returned : Partial Parsed → Type 0
Returned m = (p : Parsed) × (outcome m ≡ some p)

finish-Returned : (f cap : ℕ) (w : Walk) → length w.rest < f → Returned (finish f cap w)
unfolding finish
finish-Returned f cap w lt = elim (Bool-cases (has_handler (handler w.node))) [
  | inl run ↦ rw run (checked (collect f cap w) (collect-Ends f cap w lt))
  | inr not_run ↦ rw not_run (_, refl)
]
  where
    checked : (m : Partial Walk) → Ends m → Returned (m >>= λ v. value (check_args v))
    checked (value v) h = (check_args v, refl)
    checked (returns q) h = (q, refl)
    checked stuck h = absurd h

from_root-Returned :
    (f cap : ℕ) (tok r : Bytes) (o : Option Cmd) → length r < f → Returned (from_root f cap tok r o)
from_root-Returned f cap tok r none lt = (_, refl)
from_root-Returned f cap tok r (some c) lt =
    go (descend f (start c tok r)) (descend-Leaves f (start c tok r) lt)
  where
    go : (m : Partial Walk) → Leaves (length r) m → Returned (m >>= finish f cap)
    go (value v) h = finish-Returned f cap v (omega arith)
    go (returns q) h = (q, refl)
    go stuck h = absurd h

parse_on-returns :
    (f cap : ℕ) (roots : Cmds) (t : Reading)
    → ReadWithin f t
    → (p : Parsed) × (parse_on f roots cap t ≡ some p)
parse_on-returns f cap roots nothing h = (_, refl)
parse_on-returns f cap roots open_quote h = (_, refl)
parse_on-returns f cap roots (reading tok r) h = from_root-Returned f cap tok r (lookup roots tok) h

ReadWithin-le : (a b : ℕ) (t : Reading) → a ≤ b → ReadWithin a t → ReadWithin b t
ReadWithin-le a b (reading x r) h w = omega arith
ReadWithin-le a b nothing h w = tt
ReadWithin-le a b open_quote h w = tt

-- With more fuel than the line is long `cli_parse` returns a result, whatever the command tree.
pub cli_parse-returns :
    (f cap : ℕ) (roots : Cmds) (line : Bytes)
    → length line < f
    → (p : Parsed) × (cli_parse f roots line cap ≡ some p)
unfolding cli_parse
cli_parse-returns f cap roots line lt =
    parse_on-returns f cap roots (read_token line)
      (ReadWithin-le (length line) f (read_token line) (omega arith) (read_token-Within line))
