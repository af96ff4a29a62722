-- ===== src/Core/Send/Tests.antt =====
-- Runs of the blocking send of shell/core/cli_core.c, and the theorems about it at concrete inputs.
use stm32f746g_disco.Prelude.{ℕ, ◌≡◌, refl, true, false, none, some, List, [], ◌∷◌, arith}
use stm32f746g_disco.Core.Send.{Turn, Sender, send_loop_on, cli_tx_send_blocking}
use stm32f746g_disco.Core.Send.Account.{Accounts, send-Accounts}
use stm32f746g_disco.Core.Send.Deliver.{IsServed, send-delivers}

abbrev shell : Sender
shell = record {
  is_job = false;
  dispatching = true;
  raw = false;
  stall_start = 0;
  tx_failed = false;
  tx_dropped = 3;
  out = [];
}

-- the transport takes so many bytes; a wait is woken
abbrev turn : ℕ → Turn
turn n = record {
  cancel_req = false;
  wrote = some n;
  now = 0;
  polled = false;
  woken = some (false, false);
  polled_after = false;
}

-- two bytes go out, then the buffer is full and nothing wakes the wait
abbrev stalled : List Turn
stalled = turn 2 ∷ record (turn 0) { woken = none } ∷ []

abbrev left_off : Sender
left_off = record shell { tx_dropped = 5; out = 7 ∷ 8 ∷ [] }

stalled_run : cli_tx_send_blocking 0 stalled (7 ∷ 8 ∷ 9 ∷ 10 ∷ []) shell ≡ some (false, left_off)
unfolding send_loop_on
stalled_run = refl

send-Accounts_example :
    Accounts stalled
      (7 ∷ 8 ∷ 9 ∷ 10 ∷ [])
      (record shell { stall_start = 0; out = [] })
      (false, left_off)
send-Accounts_example =
    send-Accounts 0 stalled (7 ∷ 8 ∷ 9 ∷ 10 ∷ []) shell (false, left_off) stalled_run

turn-IsServed : (n : ℕ) → IsServed (turn n)
turn-IsServed n = record {
  takes = n;
  rx = false;
  wrote = refl;
  unlatched = refl;
  unpolled = refl;
  wakes = refl;
  still_unpolled = refl;
}

abbrev slow : List Turn
slow = turn 1 ∷ turn 0 ∷ turn 5 ∷ []

send-delivers_example :
    (s' : Sender) × (cli_tx_send_blocking 9 slow (7 ∷ 8 ∷ 9 ∷ []) shell ≡ some (true, s'))
    × (s'.out ≡ 7 ∷ 8 ∷ 9 ∷ [])
    × (s'.tx_dropped ≡ 3)
send-delivers_example =
    send-delivers 9 slow (7 ∷ 8 ∷ 9 ∷ []) shell
      (turn-IsServed 1, (turn-IsServed 0, (turn-IsServed 5, tt))) refl (omega arith)
