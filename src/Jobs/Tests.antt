-- ===== src/Jobs/Tests.antt =====
-- A pool with an ended worker in slot 0 and a running one in slot 1.
use stm32f746g_disco.Prelude.{
  ℕ, ◌+◌, ◌≡◌, refl, ◌≢◌, Bool, true, false, some, List, [], ◌∷◌, arith, ◌==◌, if◌then◌else◌,
  absurd_bool,
}
use stm32f746g_disco.Core.Registry.{
  Entry, cli_register_thread, cli_unregister_thread, IsRegistry, cli_current_instance, vacant,
}
use stm32f746g_disco.Core.Registry.Owner.{register-current}
use stm32f746g_disco.Jobs.{
  is_free_job, job_running, ThreadState, alive, completed, Job, Pool, done, started,
  cli_job_inst_reset, cli_job_launch, cli_job_kill, reap_from, find_slot, kill_from,
}
use stm32f746g_disco.Jobs.Reap.{reaped}
use stm32f746g_disco.Jobs.Launch.{Blank, failed_launch-same}
use stm32f746g_disco.Jobs.Start.{IsPlaced, Runs, launch-Runs}

abbrev job : ℕ → ThreadState → Job
job i t = record {
  state = job_running;
  id = i + 1;
  evt_ok = true;
  label = 97 ∷ [];
  inst = 100 + i;
  thread = 200 + i;
  thread_state = t;
  created = true;
  worker = cli_job_inst_reset 7 8 (97 ∷ []);
}

abbrev both_busy : Pool
both_busy = record {
  jobs = λ i. if i == 0 then job 0 completed else job 1 alive;
  next_id = 3;
  registry = record { thread = 300; sh = 7 } ∷ record { thread = 201; sh = 101 } ∷ vacant ∷ [];
  terminal = [];
}

both_busy-Blank : Blank both_busy
both_busy-Blank m l f = pick (m == 0) f
  where
    pick :
        (b : Bool)
        → is_free_job (if b then job 0 completed else job 1 alive).state ≡ true
        → (if b then job 0 completed else job 1 alive).id ≡ 0
    pick true f = absurd_bool f
    pick false f = absurd_bool f

both_busy-IsPlaced : IsPlaced both_busy
both_busy-IsPlaced m l = pick (m == 0)
  where
    pick :
        (b : Bool)
        → ((if b then job 0 completed else job 1 alive).thread ≢ 0)
          × ((if b then job 0 completed else job 1 alive).inst ≢ 0)
    pick true = ((λ e. absurd (omega arith)), (λ e. absurd (omega arith)))
    pick false = ((λ e. absurd (omega arith)), (λ e. absurd (omega arith)))

launch-Runs_example : Runs 3 7 8 (120 ∷ []) (cli_job_launch true 7 8 (120 ∷ []) both_busy)
launch-Runs_example =
    launch-Runs 7 8 0 (120 ∷ []) both_busy refl (omega arith) refl both_busy-IsPlaced refl

-- ThreadX refuses the thread.
refused : (cli_job_launch false 7 8 (120 ∷ []) both_busy).0 ≡ false
unfolding reap_from find_slot cli_register_thread cli_unregister_thread
refused = refl

failed_launch-same_example :
    (((cli_job_launch false 7 8 (120 ∷ []) both_busy).1.jobs 0).state
      ≡ (reaped (both_busy.jobs 0)).state)
    × (((cli_job_launch false 7 8 (120 ∷ []) both_busy).1.jobs 0).id
        ≡ (reaped (both_busy.jobs 0)).id)
failed_launch-same_example =
    failed_launch-same false 7 8 0 (120 ∷ []) both_busy (omega arith) both_busy-Blank refused

kill_answer : (cli_job_kill 2 both_busy).0 ≡ true
unfolding kill_from
kill_answer = refl

launch_notices :
    (cli_job_launch true 7 8 (120 ∷ []) both_busy).1.terminal
    ≡ done 1 (97 ∷ []) ∷ started 3 (120 ∷ []) ∷ []
unfolding reap_from find_slot cli_register_thread cli_unregister_thread
launch_notices = refl

abbrev registry : List Entry
registry = record { thread = 300; sh = 7 } ∷ vacant ∷ []

registry-IsRegistry : IsRegistry registry
registry-IsRegistry = (
  (λ e. absurd (omega arith)),
  (λ e. ((λ f. absurd (omega arith)), tt)),
  ((λ _. refl), (λ e. absurd (e refl)), tt),
)

registers :
    cli_register_thread 200 100 registry
    ≡ (true, record { thread = 300; sh = 7 } ∷ record { thread = 200; sh = 100 } ∷ [])
unfolding cli_register_thread
registers = refl

register-current_example :
    IsRegistry (record { thread = 300; sh = 7 } ∷ record { thread = 200; sh = 100 } ∷ [])
    × (cli_current_instance false 200
          (record { thread = 300; sh = 7 } ∷ record { thread = 200; sh = 100 } ∷ [])
        ≡ some 100)
    × (cli_current_instance false 300
          (record { thread = 300; sh = 7 } ∷ record { thread = 200; sh = 100 } ∷ [])
        ≡ cli_current_instance false 300 registry)
register-current_example =
    register-current 200 100 300 registry
      (record { thread = 300; sh = 7 } ∷ record { thread = 200; sh = 100 } ∷ []) registry-IsRegistry
      ((λ e. absurd (omega arith)), ((λ e. absurd (omega arith)), tt)) (λ e. absurd (omega arith))
      registers
