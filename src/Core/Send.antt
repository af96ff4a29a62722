-- ===== src/Core/Send.antt =====
-- `cli_tx_send_blocking` of shell/core/cli_core.c. What the transport, the clock and the event flags
-- answer in a round of its loop is a turn; a send goes through a list of turns.
pub mod Account
pub mod Deliver
mod Tests
use stm32f746g_disco.Prelude.{
  ℕ, zero, suc, ◌+◌, ◌-◌, ◌*◌, ◌/◌, ◌%◌, ◌^◌, ◌≤◌, ◌<◌, min, max, bit_and, bit_or, bit_xor, ◌≡◌,
  refl, sym, ap, ap₂, ◌∙◌, subst, ◌≢◌, ◌↔◌, ◌⊎◌, inl, inr, Bool, true, false, not, ◌&&◌, ◌||◌,
  Option, none, some, List, [], ◌∷◌, ◌++◌, map, append_assoc, append-nil, arith, ltb, leb, ◌==◌,
  if◌then◌else◌, eq→==, ne→==, ==_iff, lt→ltb, le→ltb, tests, leb→le, leb→lt, ltb→lt, ltb→le, ==→eq,
  ==→ne, Bool-cases, Option-cases, some_eq, absurd_bool, some-none, length, get_elem?, get_or, set,
  take, drop, replicate, length-append, length-set, length-take, length-drop, length-replicate,
  take-append-drop, get_or-set_self, get_or-set_ne, Bytes, codes, bytes_eq, bytes_eq_iff,
}

abbrev pub u32 : ℕ → ℕ
u32 n = n % 2 ^ 32

-- CLI_TX_TIMEOUT, CLI_BG_TX_WEDGE_TICKS
abbrev pub tx_timeout : ℕ
tx_timeout = 1000

abbrev pub bg_tx_wedge_ticks : ℕ
bg_tx_wedge_ticks = 1000

-- One round: whether a cancel is latched, what `write` returns (`none` below 0), the clock, what
-- `cli_cancel_poll` finds before and after the wait, and the flags that end the wait, kill and
-- receive, or `none` for a timeout.
pub record Turn : Type 0 where
  pub cancel_req : Bool
  pub wrote : Option ℕ
  pub now : ℕ
  pub polled : Bool
  pub woken : Option (Bool × Bool)
  pub polled_after : Bool

-- the instance as far as a send reads and writes it, with the transfer flag; `out` has the bytes that
-- the transport has taken
pub record Sender : Type 0 where
  pub is_job : Bool
  pub dispatching : Bool
  pub raw : Bool
  pub stall_start : ℕ
  pub tx_failed : Bool
  pub tx_dropped : ℕ
  pub out : Bytes

-- the rest of the data that a failed send leaves
abbrev pub drop_rest : Bytes → Sender → Sender
drop_rest d s = record s { tx_dropped = u32 (s.tx_dropped + length d) }

-- how a round ends: the function returns, or tries again with what is left
pub data Round : Type 0 where
  returns : Bool → Sender → Round
  again : Bytes → Sender → Round

abbrev pub budget : ℕ
budget = if tx_timeout == 0 then bg_tx_wedge_ticks else tx_timeout

-- a background job whose transport is full
abbrev pub job_waits : Turn → Bytes → Sender → Round
job_waits t d s =
    if leb budget ((t.now + 2 ^ 32 - s.stall_start) % 2 ^ 32)
    then returns false (drop_rest d s)
    else again d s

-- the end of the wait of an interactive instance
abbrev pub woken_by : Turn → Bytes → Sender → Option (Bool × Bool) → Round
woken_by t d s none = returns false (drop_rest d s)
woken_by t d s (some (kill, rx)) =
    if kill
    then returns false (drop_rest d s)
    else (if not s.raw && rx && t.polled_after then returns false s else again d s)

abbrev pub waits : Turn → Bytes → Sender → Round
waits t d s =
    if s.is_job
    then job_waits t d s
    else (if s.dispatching && not s.raw && t.polled
        then returns false s
        else woken_by t d s t.woken)

-- the bytes that the transport took, clamped to those there are
abbrev pub took : Turn → Bytes → ℕ → Sender → Round
took t d n s = again (drop (min n (length d)) d) (record s {
  stall_start = if s.is_job then t.now else s.stall_start;
  out = s.out ++ take (min n (length d)) d;
})

abbrev pub written : Turn → Bytes → Sender → Option ℕ → Round
written t d s none = returns false (record s { tx_failed = true })
written t d s (some n) = if n == 0 then waits t d s else took t d n s

abbrev pub send_round : Turn → Bytes → Sender → Round
send_round t d s = if s.dispatching && t.cancel_req then returns false s else written t d s t.wrote

-- the loop, on the data that is left; `none` where it still waits when the turns end
pub send_loop_on : List Turn → Bytes → Sender → Option (Bool × Sender)
send_loop_on ts [] s = some (true, s)
send_loop_on [] (b ∷ d) s = none
send_loop_on (t ∷ ts) (b ∷ d) s = elim (send_round t (b ∷ d) s) [
  | returns ok s' ↦ some (ok, s')
  | again d' s' ↦ send_loop_on ts d' s'
]

-- `cli_tx_send_blocking` at a time; `true` is the 0 that it returns
abbrev pub cli_tx_send_blocking : ℕ → List Turn → Bytes → Sender → Option (Bool × Sender)
cli_tx_send_blocking now ts d s =
    send_loop_on ts d (record s { stall_start = if s.is_job then now else 0; out = [] })
