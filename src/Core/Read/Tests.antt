-- ===== src/Core/Read/Tests.antt =====
-- The theorems on the timed waits of shell/core/cli_core.c at concrete inputs.
use stm32f746g_disco.Prelude.{ℕ, ◌≡◌, refl, Bool, true, false, none, some, List, [], ◌∷◌, arith}
use stm32f746g_disco.Core.Read.{Look, byte, read_loop, cli_read_byte, Nap, cli_sleep}
use stm32f746g_disco.Core.Read.Order.{Reads, cli_read_byte-Reads}
use stm32f746g_disco.Core.Read.Elapse.{cli_sleep-returns}

-- nothing at first, then two bytes
abbrev looks : List Look
looks =
    record { arrived = []; now = 4; killed = some false }
    ∷ record { arrived = 6 ∷ 21 ∷ []; now = 5; killed = none }
    ∷ []

looks_run : cli_read_byte looks 0 1000 [] ≡ some (byte 6, 21 ∷ [])
unfolding read_loop
looks_run = refl

cli_read_byte-Reads_example : Reads (6 ∷ 21 ∷ []) (byte 6, 21 ∷ [])
cli_read_byte-Reads_example = cli_read_byte-Reads looks 0 1000 [] (byte 6, 21 ∷ []) looks_run

abbrev nap : ℕ → Nap
nap now = record { polled = false; now = now; woken = some (false, true); polled_after = false }

-- the clock wraps around between the rounds
cli_sleep-returns_example :
    (cut_short : Bool) × (cli_sleep (nap 4294967295 ∷ nap 6 ∷ []) 4294967294 8 ≡ some cut_short)
cli_sleep-returns_example =
    cli_sleep-returns (nap 4294967295 ∷ []) [] (nap 6) 4294967294 8 8 (omega arith) (omega arith)
      (omega arith) refl
