-- ===== src/History/Tests.antt =====
-- Runs of shell/core/cli_history.c on a ring with two entries.
use stm32f746g_disco.Prelude.{ℕ, refl, Bool, true, [], ◌∷◌, arith, Bytes}
use stm32f746g_disco.Memory.{image}
use stm32f746g_disco.History.{hist_load, History, cli_history_prev, cli_history_add}
use stm32f746g_disco.History.Packed.{Packed}
use stm32f746g_disco.History.Recall.{
  KeepsBeyond, hist_load-KeepsBeyond, Holding, At, Recalled, then_next, next-prev,
}
use stm32f746g_disco.History.Add.{recorded, HoldsEntries, AreRecallable, cli_history_add-recorded}

abbrev two : Bytes
two = 108 ∷ 115 ∷ 0 ∷ 112 ∷ 0 ∷ []

abbrev ls : Bytes
ls = 108 ∷ 115 ∷ []

abbrev p : Bytes
p = 112 ∷ []

abbrev at_entry : Bool → ℕ → History
at_entry on nav = record {
  hist = image two;
  hist_used = 5;
  hist_nav_on = on;
  hist_nav = nav;
  line = image [];
  len = 0;
  cur = 0;
}

two-Packed : Packed (image two) 0 (ls ∷ p ∷ []) 5
unfolding image
two-Packed = (
  (refl, (λ e. omega (arith, e)), (refl, (λ e. omega (arith, e)), refl)),
  ((refl, (λ e. omega (arith, e)), refl), refl),
)

at_entry-Holding : (on : Bool) (nav : ℕ) → Holding (at_entry on nav) (ls ∷ p ∷ [])
at_entry-Holding on nav = record { packed = two-Packed; within = omega arith }

At-oldest : At (at_entry true 0) [] ls (p ∷ [])
At-oldest = record { holding = at_entry-Holding true 0; on = refl; nav = refl }

At-newest : At (at_entry true 3) (ls ∷ []) p []
At-newest = record { holding = at_entry-Holding true 3; on = refl; nav = refl }

next-prev_example : Recalled (ls ∷ []) p [] (then_next 4 (cli_history_prev 4 (at_entry true 3)))
next-prev_example =
    next-prev [] ls p [] 4 (at_entry true 3) At-newest (omega arith) (omega arith) (omega arith)

cli_history_add-recorded_example :
    HoldsEntries (recorded (ls ∷ p ∷ []) ls) (cli_history_add 4 (at_entry true 3) ls)
    × AreRecallable (recorded (ls ∷ p ∷ []) ls)
cli_history_add-recorded_example =
    cli_history_add-recorded (ls ∷ p ∷ []) ls 4 (at_entry true 3) (at_entry-Holding true 3)
      ((λ e. omega (arith, e)), ((λ e. omega (arith, e)), tt)) (omega arith)
      (omega arith, omega arith, (omega arith, omega arith, tt))

hist_load-KeepsBeyond_example : KeepsBeyond (at_entry true 3).line (hist_load 4 3 (at_entry true 3))
hist_load-KeepsBeyond_example =
    hist_load-KeepsBeyond (ls ∷ []) p [] 4 (at_entry true 3) (at_entry-Holding true 3) (omega arith)
      (omega arith)
