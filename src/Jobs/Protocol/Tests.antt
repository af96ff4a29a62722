-- ===== src/Jobs/Protocol/Tests.antt =====
-- A job that is launched, ends and is claimed by another actor.
use stm32f746g_disco.Prelude.{ℕ, ◌+◌, ◌≡◌, refl, Bool, true, false, none, some, [], ◌∷◌, arith}
use stm32f746g_disco.Jobs.{
  job_free, alive, completed, Pool, cli_job_inst_reset, has_ended, find_slot, reserve, prepare,
  create_thread, claim_done, job_running, set_running, free_job, clear_id, print, table_full,
}
use stm32f746g_disco.Jobs.Protocol.{
  reaping, launching, prepared, made, System, clearing, announcing, turn_to, end_thread,
  with_registry, Run, begins, goes_on, claims, reserves, prepares, creates, starts, ends, frees,
  clears,
}
use stm32f746g_disco.Jobs.Protocol.Safety.{IsZeroed, boot, reaping-is_exclusive}

abbrev zeroed : Pool
zeroed = record {
  jobs = λ i. record {
    state = job_free;
    id = 0;
    evt_ok = false;
    label = [];
    inst = 100 + i;
    thread = 200 + i;
    thread_state = alive;
    created = false;
    worker = cli_job_inst_reset 0 0 [];
  };
  next_id = 1;
  registry = [];
  terminal = [];
}

zeroed-IsZeroed : IsZeroed zeroed
zeroed-IsZeroed = ((λ m. (refl, refl, refl)), refl)

abbrev usable : ℕ → Bool
usable i = true

abbrev reserved : System
reserved =
    turn_to 1 (some (launching 0 1)) (reserve (some 0) (boot usable zeroed).pool)
      (boot usable zeroed)

abbrev ready : System
ready = turn_to 1 (some (prepared 0)) (prepare 0 1 7 8 (97 ∷ []) reserved.pool) reserved

abbrev born : System
born = turn_to 1 (some (made 0)) (create_thread 0 (with_registry [] ready.pool)) ready

abbrev under_way : System
under_way = turn_to 1 (some (announcing 0)) (set_running 0 born.pool) born

abbrev over : System
over = record under_way { pool = end_thread 0 completed under_way.pool }

abbrev claimed : System
claimed = turn_to 2 (some (reaping 0)) (claim_done 0 over.pool) over

prepares_one : Run (boot usable zeroed) ready
unfolding find_slot
prepares_one = goes_on (goes_on begins (reserves 1 0 refl refl)) (prepares 1 0 1 7 8 (97 ∷ []) refl)

launched : Run (boot usable zeroed) under_way
launched = goes_on (goes_on prepares_one (creates 1 0 [] refl)) (starts 1 0 refl)

reaping-is_exclusive_example :
    ((claimed.pool.jobs 0).created ≡ true)
    × (has_ended (claimed.pool.jobs 0).thread_state ≡ true)
    × ◌≡◌ {A = ℕ} 2 2
reaping-is_exclusive_example =
    reaping-is_exclusive usable zeroed claimed 2 2 0 (reaping 0) zeroed-IsZeroed
      (goes_on (goes_on launched (ends 0 completed refl refl refl))
        (claims 2 0 refl (omega arith) refl))
      refl refl refl

-- A launch that fails is overtaken between its two stores: another launcher takes the slot and runs its
-- job there, which then has the id 0.
abbrev freed : System
freed = turn_to 1 (some (clearing 0)) (free_job 0 (with_registry [] ready.pool)) ready

abbrev reserved_again : System
reserved_again = turn_to 2 (some (launching 0 2)) (reserve (some 0) freed.pool) freed

abbrev ready_again : System
ready_again =
    turn_to 2 (some (prepared 0)) (prepare 0 2 7 8 (98 ∷ []) reserved_again.pool) reserved_again

abbrev born_again : System
born_again =
    turn_to 2 (some (made 0)) (create_thread 0 (with_registry [] ready_again.pool)) ready_again

abbrev runs_again : System
runs_again = turn_to 2 (some (announcing 0)) (set_running 0 born_again.pool) born_again

abbrev nameless : System
nameless = turn_to 1 none (print table_full (clear_id 0 runs_again.pool)) runs_again

overtaken :
    Run (boot usable zeroed) nameless
    × ((nameless.pool.jobs 0).state ≡ job_running)
    × ((nameless.pool.jobs 0).id ≡ 0)
unfolding find_slot
overtaken = (
  goes_on
      (goes_on
        (goes_on
          (goes_on (goes_on (goes_on prepares_one (frees 1 0 [] refl)) (reserves 2 0 refl refl))
            (prepares 2 0 2 7 8 (98 ∷ []) refl))
          (creates 2 0 [] refl))
        (starts 2 0 refl))
      (clears 1 0 table_full refl),
  refl,
  refl,
)
