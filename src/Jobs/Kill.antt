-- ===== src/Jobs/Kill.antt =====
-- `cli_job_kill`: the cancel goes to the running job with the id, and to no other.
use stm32f746g_disco.Prelude.{ℕ, zero, suc, ◌+◌, ◌<◌, ◌≡◌, Bool, true, false, bit_or, ◌≢◌}
use stm32f746g_disco.Jobs.{job_running, Job, Pool}

-- The slot has a running job with the id.
abbrev pub Aims : ℕ → Job → Type 0
Aims id j = (j.state ≡ job_running) × (j.id ≡ id)

-- No slot of the `k` from `i` on is a running job with the id.
abbrev pub NoTarget : ℕ → ℕ → ℕ → Pool → Type 0
NoTarget zero i id p = Unit {0}
NoTarget (suc k) i id p = (¬ Aims id (p.jobs i)) × NoTarget k (suc i) id p

-- The worker of slot `i` has its cancel request set and the kill event raised beside those it had; all
-- else of the slot, and the other slots, are as they were.
pub record Latched (i : ℕ) (p q : Pool) : Type 0 where
  pub requested : (q.jobs i).worker.cancel_req ≡ true
  pub raised : (q.jobs i).worker.events ≡ bit_or (p.jobs i).worker.events 4
  pub same_line : (q.jobs i).worker.line ≡ (p.jobs i).worker.line
  pub same_state : (q.jobs i).state ≡ (p.jobs i).state
  pub same_id : (q.jobs i).id ≡ (p.jobs i).id
  pub others : (m : ℕ) → m ≢ i → q.jobs m ≡ p.jobs m
  pub same_next : q.next_id ≡ p.next_id
  pub same_registry : q.registry ≡ p.registry
  pub same_terminal : q.terminal ≡ p.terminal

-- A kill reaches the first running job with the id among `k` slots from `i` on, or there is none.
abbrev pub Kills : ℕ → ℕ → ℕ → Pool → Bool × Pool → Type 0
Kills k i id p (false, q) = (q ≡ p) × NoTarget k i id p
Kills k i id p (true, q) =
    (n : ℕ) × (n < k) × NoTarget n i id p × Aims id (p.jobs (i + n)) × Latched (i + n) p q
