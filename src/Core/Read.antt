-- ===== src/Core/Read.antt =====
-- The timed waits of shell/core/cli_core.c: `cli_read_byte` and `cli_sleep`. What the
-- clock and the event flags answer in a round of a loop is a turn.
pub mod Order
pub mod Elapse
mod Tests
use stm32f746g_disco.Prelude.{
  ℕ, zero, suc, ◌+◌, ◌-◌, ◌*◌, ◌/◌, ◌%◌, ◌^◌, ◌≤◌, ◌<◌, min, max, bit_and, bit_or, bit_xor, ◌≡◌,
  refl, sym, ap, ap₂, ◌∙◌, subst, ◌≢◌, ◌↔◌, ◌⊎◌, inl, inr, Bool, true, false, not, ◌&&◌, ◌||◌,
  Option, none, some, List, [], ◌∷◌, ◌++◌, map, append_assoc, append-nil, arith, ltb, leb, ◌==◌,
  if◌then◌else◌, eq→==, ne→==, ==_iff, lt→ltb, le→ltb, tests, leb→le, leb→lt, ltb→lt, ltb→le, ==→eq,
  ==→ne, Bool-cases, Option-cases, some_eq, absurd_bool, some-none, length, get_elem?, get_or, set,
  take, drop, replicate, length-append, length-set, length-take, length-drop, length-replicate,
  take-append-drop, get_or-set_self, get_or-set_ne, Bytes, codes, bytes_eq, bytes_eq_iff,
}

-- One round: the bytes that arrive before it, the clock, and whether the flags that end the wait hold
-- a kill, or `none` for a timeout.
pub record Look : Type 0 where
  pub arrived : Bytes
  pub now : ℕ
  pub killed : Option Bool

-- what `cli_read_byte` returns: a byte, -1 or -2
pub data Got : Type 0 where
  byte : ℕ → Got
  timed_out : Got
  stopping : Got

-- the clock less the start, at 32 bits
abbrev pub elapsed : ℕ → ℕ → ℕ
elapsed now start = (now + 2 ^ 32 - start) % 2 ^ 32

-- the end of a wait
abbrev pub ended : Option Bool → Option (Got × Bytes) → Option (Got × Bytes)
ended none later = some (timed_out, [])
ended (some true) later = some (stopping, [])
ended (some false) later = later

-- a round on the bytes in the receive ring
abbrev pub looked : Look → ℕ → ℕ → Bytes → Option (Got × Bytes) → Option (Got × Bytes)
looked l start timeout (b ∷ rest) later = some (byte b, rest)
looked l start timeout [] later =
    if timeout == 0 || leb timeout (elapsed l.now start)
    then some (timed_out, [])
    else ended l.killed later

-- the loop; `none` where it still waits when the rounds end
pub read_loop : List Look → ℕ → ℕ → Bytes → Option (Got × Bytes)
read_loop [] start timeout rx = none
read_loop (l ∷ ls) start timeout rx =
    looked l start timeout (rx ++ l.arrived) (read_loop ls start timeout [])

abbrev pub cli_read_byte : List Look → ℕ → ℕ → Bytes → Option (Got × Bytes)
cli_read_byte ls start timeout rx = read_loop ls start timeout rx

-- One round of a sleep: what `cli_cancel_poll` finds before and after the wait, the clock, and the
-- kill and receive flags that end the wait, or `none` for a timeout.
pub record Nap : Type 0 where
  pub polled : Bool
  pub now : ℕ
  pub woken : Option (Bool × Bool)
  pub polled_after : Bool

-- `true` is the 1 that `cli_sleep` returns, for a delay that was cut short
pub sleep_loop : List Nap → ℕ → ℕ → Option Bool
sleep_loop [] start ticks = none
sleep_loop (n ∷ ns) start ticks =
    let later = sleep_loop ns start ticks in
    if n.polled
    then some true
    else (if leb ticks (elapsed n.now start) then some false else elim n.woken [
      | none ↦ some false
      | some (kill, rx) ↦ if kill || (rx && n.polled_after) then some true else later
    ])

abbrev pub cli_sleep : List Nap → ℕ → ℕ → Option Bool
cli_sleep ns start ticks = if ticks == 0 then some false else sleep_loop ns start ticks
