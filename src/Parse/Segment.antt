-- ===== src/Parse/Segment.antt =====
-- `cli_next_segment` of shell/core/cli_parse.c: a line is cut at top-level `;` in place.
pub mod Split
pub mod Balance
use stm32f746g_disco.Prelude.{
  ℕ, zero, suc, ◌+◌, ◌-◌, ◌*◌, ◌/◌, ◌%◌, ◌^◌, ◌≤◌, ◌<◌, min, max, bit_and, bit_or, bit_xor, ◌≡◌,
  refl, sym, ap, ap₂, ◌∙◌, subst, ◌≢◌, ◌↔◌, ◌⊎◌, inl, inr, Bool, true, false, not, ◌&&◌, ◌||◌,
  Option, none, some, List, [], ◌∷◌, ◌++◌, map, append_assoc, append-nil, arith, ltb, leb, ◌==◌,
  if◌then◌else◌, eq→==, ne→==, ==_iff, lt→ltb, le→ltb, tests, leb→le, leb→lt, ltb→lt, ltb→le, ==→eq,
  ==→ne, Bool-cases, Option-cases, length, get_elem?, get_or, set, take, drop, replicate,
  length-append, length-set, length-take, length-drop, length-replicate, take-append-drop,
  get_or-set_self, get_or-set_ne, Bytes, codes, bytes_eq, bytes_eq_iff,
}
use stm32f746g_disco.Memory.{Mem, write}
use stm32f746g_disco.Parse.Token.{Quote, bare, double, single}

-- what one round of the `for` does: cut here, leave the loop, or go on at an address
pub data Move : Type 0 where
  cut : Move
  leave : Move
  move : Quote → ℕ → Move

pub move_at : Quote → ℕ → Mem → ℕ → Move
move_at bare c m p =
    if c == 0
    then leave
    else if c == b';'
    then cut
    else if c == b'"'
    then move double (suc p)
    else if c == b'\''
    then move single (suc p)
    else if c == b'\\'
    then (if m (suc p) == 0 then leave else move bare (suc (suc p)))
    else move bare (suc p)
move_at double c m p =
    if c == 0
    then leave
    else if c == b'"'
    then move bare (suc p)
    else if c == b'\\'
    then (if m (suc p) == 0 then leave else move double (suc (suc p)))
    else move double (suc p)
move_at single c m p =
    if c == 0 then leave else if c == b'\'' then move bare (suc p) else move single (suc p)

-- The address of the `;`, if there is one; the outer `none` is for fuel that runs out.
pub separator_loop : ℕ → Quote → Mem → ℕ → Option (Option ℕ)
separator_loop zero q m p = none
separator_loop (suc f) q m p = elim (move_at q (m p) m p) [
  | cut ↦ some (some p)
  | leave ↦ some none
  | move q' p' ↦ separator_loop f q' m p'
]

-- The segment that is returned, and the memory and `*cursor` behind the call.
pub record Segment : Type 0 where
  pub start : Option ℕ
  pub mem : Mem
  pub cursor : Option ℕ

abbrev pub cut_at : Mem → ℕ → Option ℕ → Segment
cut_at m start none = record { start = some start; mem = m; cursor = none }
cut_at m start (some p) = record { start = some start; mem = write m p 0; cursor = some (suc p) }

unfoldable pub cli_next_segment : ℕ → Mem → Option ℕ → Option Segment
unfolding separator_loop move_at
cli_next_segment f m none = some (record { start = none; mem = m; cursor = none })
cli_next_segment f m (some start) = elim (separator_loop f bare m start) [
  | none ↦ none
  | some at ↦ some (cut_at m start at)
]
