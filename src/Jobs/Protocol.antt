-- ===== src/Jobs/Protocol.antt =====
-- Reapers, launchers, kills and the ends of workers in any order. Each actor is a thread that may be
-- between two steps of `cli_jobs_reap` or of `cli_job_launch`; what it does there is its duty.
pub mod Exclusion
pub mod Steps
pub mod Safety
mod Tests
use stm32f746g_disco.Prelude.{
  ℕ, zero, suc, ◌+◌, ◌-◌, ◌*◌, ◌/◌, ◌%◌, ◌^◌, ◌≤◌, ◌<◌, min, max, bit_and, bit_or, bit_xor, ◌≡◌,
  refl, sym, ap, ap₂, ◌∙◌, subst, ◌≢◌, ◌↔◌, ◌⊎◌, inl, inr, Bool, true, false, not, ◌&&◌, ◌||◌,
  Option, none, some, List, [], ◌∷◌, ◌++◌, map, append_assoc, append-nil, arith, ltb, leb, ◌==◌,
  if◌then◌else◌, eq→==, ne→==, ==_iff, lt→ltb, le→ltb, tests, leb→le, leb→lt, ltb→lt, ltb→le, ==→eq,
  ==→ne, Bool-cases, Option-cases, some_eq, absurd_bool, some-none, length, get_elem?, get_or, set,
  take, drop, replicate, length-append, length-set, length-take, length-drop, length-replicate,
  take-append-drop, get_or-set_self, get_or-set_ne, Bytes, codes, bytes_eq, bytes_eq_iff,
}
use stm32f746g_disco.Core.Registry.{Entry}
use stm32f746g_disco.Jobs.{
  ThreadState, alive, has_ended, Job, Notice, Pool, max_bg_jobs, put_job, is_done, claim_done,
  finish_reap, find_slot, reserve, prepare, free_job, clear_id, set_running, announce, print,
  create_thread, is_target, latch_cancel,
}

-- The slot that an actor is at, and how far it is. A launcher that has given its slot back may still
-- have its id to clear, and one that has set it running to print.
pub data Duty : Type 0 where
  reaping : ℕ → Duty
  launching : ℕ → ℕ → Duty
  prepared : ℕ → Duty
  made : ℕ → Duty
  clearing : ℕ → Duty
  announcing : ℕ → Duty

-- the slot that an actor owns, if any
abbrev pub slot_of : Duty → Option ℕ
slot_of (reaping i) = some i
slot_of (launching i id) = some i
slot_of (prepared i) = some i
slot_of (made i) = some i
slot_of (clearing i) = none
slot_of (announcing i) = none

-- the pool and what each actor is at
pub record System : Type 0 where
  pub pool : Pool
  pub duty : ℕ → Option Duty

abbrev pub turn_to : ℕ → Option Duty → Pool → System → System
turn_to a d p s = record s { pool = p; duty = λ b. if b == a then d else s.duty b }

-- a worker that returns or is terminated
abbrev pub end_thread : ℕ → ThreadState → Pool → Pool
end_thread i t p = put_job i (record (p.jobs i) { thread_state = t }) p

abbrev pub with_registry : List Entry → Pool → Pool
with_registry reg p = record p { registry = reg }

pub data Step (s : System) : System → Type 0 where
  claims :
      (a i : ℕ)
      → s.duty a ≡ none
      → i < max_bg_jobs
      → is_done (s.pool.jobs i) ≡ true
      → Step s (turn_to a (some (reaping i)) (claim_done i s.pool) s)
  reaps : (a i : ℕ) → s.duty a ≡ some (reaping i) → Step s (turn_to a none (finish_reap i s.pool) s)
  reserves :
      (a i : ℕ)
      → s.duty a ≡ none
      → find_slot max_bg_jobs 0 s.pool ≡ some i
      → Step s (turn_to a (some (launching i s.pool.next_id)) (reserve (some i) s.pool) s)
  prepares :
      (a i id fg tr : ℕ) (seg : Bytes)
      → s.duty a ≡ some (launching i id)
      → Step s (turn_to a (some (prepared i)) (prepare i id fg tr seg s.pool) s)
  frees :
      (a i : ℕ) (reg : List Entry)
      → s.duty a ≡ some (prepared i)
      → Step s (turn_to a (some (clearing i)) (free_job i (with_registry reg s.pool)) s)
  clears :
      (a i : ℕ) (n : Notice)
      → s.duty a ≡ some (clearing i)
      → Step s (turn_to a none (print n (clear_id i s.pool)) s)
  creates :
      (a i : ℕ) (reg : List Entry)
      → s.duty a ≡ some (prepared i)
      → Step s (turn_to a (some (made i)) (create_thread i (with_registry reg s.pool)) s)
  starts :
      (a i : ℕ)
      → s.duty a ≡ some (made i)
      → Step s (turn_to a (some (announcing i)) (set_running i s.pool) s)
  announces :
      (a i : ℕ) → s.duty a ≡ some (announcing i) → Step s (turn_to a none (announce i s.pool) s)
  kills :
      (i id : ℕ)
      → is_target id (s.pool.jobs i) ≡ true
      → Step s (record s { pool = latch_cancel i s.pool })
  ends :
      (i : ℕ) (t : ThreadState)
      → (s.pool.jobs i).created ≡ true
      → (s.pool.jobs i).thread_state ≡ alive
      → has_ended t ≡ true
      → Step s (record s { pool = end_thread i t s.pool })

pub data Run (s : System) : System → Type 0 where
  begins : Run s s
  goes_on : {t u : System} → Run s t → Step t u → Run s u
