-- ===== src/Parse/Background.antt =====
-- `cli_segment_is_background` of shell/core/cli_parse.c: a trailing `&` is found and stripped.
use stm32f746g_disco.Prelude.{
  ℕ, zero, suc, Bool, true, false, not, ◌&&◌, Option, none, some, ◌==◌, if◌then◌else◌,
}
use stm32f746g_disco.Memory.{Mem, write}
use stm32f746g_disco.Parse.Lex.{is_space}
use stm32f746g_disco.Parse.Token.{Quote, bare, double, single}

-- the locals of the scan: the quote, the `&` at hand, and the two flags
pub record Marks : Type 0 where
  pub quote : Quote
  pub amp : Option ℕ
  pub amp_after_amp : Bool
  pub prev_sig_amp : Bool

-- one round: it leaves the loop, or goes on at an index
pub data Round : Type 0 where
  leave : Round
  go : ℕ → Marks → Round

abbrev pub other : Quote → Marks → Marks
other q s = record s { quote = q; amp = none; prev_sig_amp = false }

pub round : Quote → ℕ → Mem → ℕ → Marks → Round
round bare c m i s =
    if is_space c
    then go (suc i) s
    else if c == b'\\'
    then (if m (suc i) == 0 then leave else go (suc (suc i)) (other bare s))
    else if c == b'"'
    then go (suc i) (other double s)
    else if c == b'\''
    then go (suc i) (other single s)
    else if c == b'&'
    then go (suc i) (record s { amp = some i; amp_after_amp = s.prev_sig_amp; prev_sig_amp = true })
    else go (suc i) (other bare s)
round double c m i s =
    if c == b'\\' && not (m (suc i) == 0)
    then go (suc (suc i)) (other double s)
    else go (suc i) (other (if c == b'"' then bare else double) s)
round single c m i s = go (suc i) (other (if c == b'\'' then bare else single) s)

pub mark_loop : ℕ → Mem → ℕ → Marks → Option Marks
unfolding round
mark_loop zero m i s = none
mark_loop (suc f) m i s = elim (m i == 0) [
  | true ↦ some s
  | false ↦ elim (round s.quote (m i) m i s) [ leave ↦ some s | go j t ↦ mark_loop f m j t ]
]

-- the blanks in front of the `&`
pub strip : ℕ → Mem → Mem
strip zero m = m
strip (suc j) m = let rest = strip j (write m j 0) in if is_space (m j) then rest else m

abbrev pub answer : Mem → Marks → Mem × Bool
answer m s = elim s.amp [
  | none ↦ (m, false)
  | some a ↦ if s.amp_after_amp then (m, false) else (strip a (write m a 0), true)
]

-- On a segment at address 0; `none` if the fuel runs out.
unfoldable pub cli_segment_is_background : ℕ → Mem → Option (Mem × Bool)
unfolding mark_loop strip
cli_segment_is_background f m =
    elim (mark_loop f m 0
      (record { quote = bare; amp = none; amp_after_amp = false; prev_sig_amp = false })) [
        | none ↦ none
        | some s ↦ some (answer m s)
      ]
