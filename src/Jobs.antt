-- ===== src/Jobs.antt =====
-- shell/core/cli_job.c: the pool of background jobs. What runs under TX_DISABLE is one operation on the
-- pool. The outcome of tx_thread_create and the states of the threads are ThreadX's.
pub mod Reap
pub mod Launch
pub mod Start
pub mod Protocol
pub mod Kill
mod Tests
use stm32f746g_disco.Prelude.{
  ℕ, zero, suc, ◌+◌, ◌-◌, ◌*◌, ◌/◌, ◌%◌, ◌^◌, ◌≤◌, ◌<◌, min, max, bit_and, bit_or, bit_xor, ◌≡◌,
  refl, sym, ap, ap₂, ◌∙◌, subst, ◌≢◌, ◌↔◌, ◌⊎◌, inl, inr, Bool, true, false, not, ◌&&◌, ◌||◌,
  Option, none, some, List, [], ◌∷◌, ◌++◌, map, append_assoc, append-nil, arith, ltb, leb, ◌==◌,
  if◌then◌else◌, eq→==, ne→==, ==_iff, lt→ltb, le→ltb, tests, leb→le, leb→lt, ltb→lt, ltb→le, ==→eq,
  ==→ne, Bool-cases, Option-cases, some_eq, absurd_bool, some-none, length, get_elem?, get_or, set,
  take, drop, replicate, length-append, length-set, length-take, length-drop, length-replicate,
  take-append-drop, get_or-set_self, get_or-set_ne, Bytes, codes, bytes_eq, bytes_eq_iff,
}
use stm32f746g_disco.Core.Registry.{Entry, cli_register_thread, cli_unregister_thread}

-- CLI_MAX_BG_JOBS, CLI_JOB_LABEL_MAX, CLI_CMD_BUFFER_SIZE, CLI_BG_JOB_STACK_SIZE, CLI_TERM_WIDTH
abbrev pub max_bg_jobs : ℕ
max_bg_jobs = 2

abbrev pub job_label_max : ℕ
job_label_max = 40

abbrev pub cmd_buffer_size : ℕ
cmd_buffer_size = 256

-- `enum cli_job_state`
pub data JobState : Type 0 where
  job_free job_launching job_running job_reaping : JobState

-- `tx_thread_state` of a worker, as far as the pool tells its values apart
pub data ThreadState : Type 0 where
  alive completed terminated : ThreadState

-- the part of `struct cli_instance` that a worker has: `fg` and `tr` are addresses, `events` its flags
pub record Worker : Type 0 where
  pub fg : ℕ
  pub tr : ℕ
  pub line : Bytes
  pub out_len : ℕ
  pub tx_failed : Bool
  pub dispatching : Bool
  pub cancel_req : Bool
  pub last_result : ℕ
  pub rx_dropped : ℕ
  pub tx_dropped : ℕ
  pub events : ℕ

-- `struct cli_job`, with the addresses of its instance and its thread. `created` is whether ThreadX
-- has the thread: created and not deleted.
pub record Job : Type 0 where
  pub state : JobState
  pub id : ℕ
  pub evt_ok : Bool
  pub label : Bytes
  pub inst : ℕ
  pub thread : ℕ
  pub thread_state : ThreadState
  pub created : Bool
  pub worker : Worker

-- what is printed to the terminal of the caller
pub data Notice : Type 0 where
  done : ℕ → Bytes → Notice
  started : ℕ → Bytes → Notice
  running : ℕ → Bytes → Notice
  no_jobs too_many table_full not_started : Notice

-- `cli_jobs`, `cli_job_next_id`, the registry of threads and the terminal
pub record Pool : Type 0 where
  pub jobs : ℕ → Job
  pub next_id : ℕ
  pub registry : List Entry
  pub terminal : List Notice

abbrev pub put_job : ℕ → Job → Pool → Pool
put_job i j p = record p { jobs = λ k. if k == i then j else p.jobs k }

abbrev pub print : Notice → Pool → Pool
print n p = record p { terminal = p.terminal ++ (n ∷ []) }

-- `cli_job_pool_init` of the slots from `i` on, with the outcomes of tx_event_flags_create
abbrev pub pool_init_from : ℕ → ℕ → (ℕ → Bool) → Pool → Pool
pool_init_from zero i ok p = p
pool_init_from (suc k) i ok p =
    pool_init_from k (suc i) ok
      (put_job i (record (p.jobs i) { state = job_free; id = 0; evt_ok = ok i }) p)

abbrev pub cli_job_pool_init : (ℕ → Bool) → Pool → Pool
cli_job_pool_init = pool_init_from max_bg_jobs 0

abbrev pub has_ended : ThreadState → Bool
has_ended alive = false
has_ended completed = true
has_ended terminated = true

abbrev pub is_free_job : JobState → Bool
is_free_job job_free = true
is_free_job _ = false

abbrev pub is_running : JobState → Bool
is_running job_running = true
is_running _ = false

-- the claim of a reaper
abbrev pub is_done : Job → Bool
is_done j = is_running j.state && has_ended j.thread_state

abbrev pub claim_done : ℕ → Pool → Pool
claim_done i p = put_job i (record (p.jobs i) { state = job_reaping }) p

-- what the reaper does to the slot that it has claimed
abbrev pub finish_reap : ℕ → Pool → Pool
finish_reap i p =
    let j = p.jobs i in
    put_job i (record j { created = false; id = 0; state = job_free })
      (print (done j.id j.label)
        (record p { registry = cli_unregister_thread j.thread p.registry }))

abbrev pub reap_at : ℕ → Pool → Pool
reap_at i p = if is_done (p.jobs i) then finish_reap i (claim_done i p) else p

pub reap_from : ℕ → ℕ → Pool → Pool
reap_from zero i p = p
reap_from (suc k) i p = reap_from k (suc i) (reap_at i p)

abbrev pub cli_jobs_reap : Pool → Pool
cli_jobs_reap = reap_from max_bg_jobs 0

abbrev pub cli_seg_blank : Bytes → Bool
cli_seg_blank [] = true
cli_seg_blank (c ∷ seg) = (c == b' ' || c == 9) && cli_seg_blank seg

-- the first free slot that has its events, of `k` slots from `i` on
pub find_slot : ℕ → ℕ → Pool → Option ℕ
find_slot zero i p = none
find_slot (suc k) i p =
    let rest = find_slot k (suc i) p in
    if is_free_job (p.jobs i).state && (p.jobs i).evt_ok then some i else rest

-- the reservation of `cli_job_launch`
abbrev pub reserve : Option ℕ → Pool → Pool
reserve none p = p
reserve (some i) p = record (put_job i (record (p.jobs i) { state = job_launching }) p) {
  next_id = (p.next_id + 1) % 2 ^ 32;
}

-- `cli_job_inst_reset`, for the foreground `fg` with its transport
abbrev pub cli_job_inst_reset : ℕ → ℕ → Bytes → Worker
cli_job_inst_reset fg tr seg = record {
  fg = fg;
  tr = tr;
  line = take (cmd_buffer_size - 1) seg;
  out_len = 0;
  tx_failed = false;
  dispatching = false;
  cancel_req = false;
  last_result = 0;
  rx_dropped = 0;
  tx_dropped = 0;
  events = 0;
}

abbrev pub prepare : ℕ → ℕ → ℕ → ℕ → Bytes → Pool → Pool
prepare i id fg tr seg p =
    put_job i
      (record (p.jobs i) {
        id = id;
        label = take (job_label_max - 1) seg;
        worker = cli_job_inst_reset fg tr seg;
      })
      p

-- the two stores to the slot of a launch that failed, which no lock holds together
abbrev pub free_job : ℕ → Pool → Pool
free_job i p = put_job i (record (p.jobs i) { state = job_free }) p

abbrev pub clear_id : ℕ → Pool → Pool
clear_id i p = put_job i (record (p.jobs i) { id = 0 }) p

abbrev pub give_up : ℕ → Notice → Pool → Pool
give_up i n p = print n (clear_id i (free_job i p))

-- what tx_thread_create does, and what the launcher does behind it
abbrev pub create_thread : ℕ → Pool → Pool
create_thread i p = put_job i (record (p.jobs i) { thread_state = alive; created = true }) p

abbrev pub set_running : ℕ → Pool → Pool
set_running i p = put_job i (record (p.jobs i) { state = job_running }) p

-- the slot is read after the store, when a reaper may have it
abbrev pub announce : ℕ → Pool → Pool
announce i p = print (started (p.jobs i).id (p.jobs i).label) p

abbrev pub mark_running : ℕ → Pool → Pool
mark_running i p = announce i (set_running i p)

-- the rest of `cli_job_launch` once slot `i` is prepared, with the outcome of tx_thread_create
abbrev pub launch_in : ℕ → Bool → Bool × List Entry → Pool → Bool × Pool
launch_in i ok (false, reg) p = (false, give_up i table_full p)
launch_in i ok (true, reg) p =
    if ok then (true, mark_running i (create_thread i (record p { registry = reg }))) else (
      false,
      give_up i not_started (record p { registry = cli_unregister_thread (p.jobs i).thread reg }),
    )

abbrev pub launch_slot : Bool → ℕ → ℕ → Bytes → Pool → Option ℕ → Bool × Pool
launch_slot ok fg tr seg p none = (false, print too_many p)
launch_slot ok fg tr seg p (some i) =
    let q = prepare i p.next_id fg tr seg (reserve (some i) p) in
    launch_in i ok (cli_register_thread (q.jobs i).thread (q.jobs i).inst q.registry) q

-- `cli_job_launch`; `true` is the 0 that it returns, `false` the -1
abbrev pub cli_job_launch : Bool → ℕ → ℕ → Bytes → Pool → Bool × Pool
cli_job_launch ok fg tr seg p =
    let q = cli_jobs_reap p in
    if cli_seg_blank seg then (true, q) else launch_slot ok fg tr seg q (find_slot max_bg_jobs 0 q)

abbrev pub print_job : Job → Pool → Pool
print_job j p = if is_running j.state then print (running j.id j.label) p else p

-- the listing of `k` slots from `i` on, with the number of jobs listed
abbrev pub list_from : ℕ → ℕ → ℕ → Pool → ℕ × Pool
list_from zero i n p = (n, p)
list_from (suc k) i n p =
    list_from k (suc i) (if is_running (p.jobs i).state then n + 1 else n) (print_job (p.jobs i) p)

abbrev pub cli_jobs_print : Pool → Pool
cli_jobs_print p =
    let (n, q) = list_from max_bg_jobs 0 0 (cli_jobs_reap p) in
    if n == 0 then print no_jobs q else q

-- CLI_EVT_KILL
abbrev pub evt_kill : ℕ
evt_kill = 4

abbrev pub latch_cancel : ℕ → Pool → Pool
latch_cancel i p =
    let w = (p.jobs i).worker in
    put_job i
      (record (p.jobs i) {
        worker = record w { cancel_req = true; events = bit_or w.events evt_kill };
      })
      p

abbrev pub is_target : ℕ → Job → Bool
is_target id j = is_running j.state && j.id == id

pub kill_from : ℕ → ℕ → ℕ → Pool → Bool × Pool
kill_from zero i id p = (false, p)
kill_from (suc k) i id p =
    let rest = kill_from k (suc i) id p in
    if is_target id (p.jobs i) then (true, latch_cancel i p) else rest

-- `cli_job_kill`; `true` is the 0 that it returns, `false` the -1
abbrev pub cli_job_kill : ℕ → Pool → Bool × Pool
cli_job_kill id p = kill_from max_bg_jobs 0 id p
