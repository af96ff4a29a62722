-- ===== src/Jobs/Protocol/Safety.antt =====
-- After any run from the boot: each slot has at most one owner, and what is deleted has ended.
use stm32f746g_disco.Prelude.{
  ℕ, ◌≡◌, refl, sym, subst, Bool, true, false, none, some, ◌==◌, if◌then◌else◌, some-none,
}
use stm32f746g_disco.Jobs.{job_free, job_reaping, Job, Pool, has_ended, cli_job_pool_init, put_job}
use stm32f746g_disco.Jobs.Protocol.{
  Duty, reaping, slot_of, System, Step, Run, begins, goes_on, claims, reaps, reserves, prepares,
  frees, clears, creates, starts, announces, kills, ends,
}
use stm32f746g_disco.Jobs.Protocol.Exclusion.{SlotOk, IsOrderly}
use stm32f746g_disco.Jobs.Protocol.Steps.{
  claims-IsOrderly, reaps-IsOrderly, reserves-IsOrderly, prepares-IsOrderly, frees-IsOrderly,
  clears-IsOrderly, announces-IsOrderly, creates-IsOrderly, starts-IsOrderly, kills-IsOrderly,
  ends-IsOrderly,
}

pub Step-IsOrderly : {s t : System} → Step s t → IsOrderly s → IsOrderly t
Step-IsOrderly {s} (claims a i h l e) o = claims-IsOrderly a i s o e
Step-IsOrderly {s} (reaps a i h) o = reaps-IsOrderly a i s o h
Step-IsOrderly {s} (reserves a i h f) o = reserves-IsOrderly a i s o f
Step-IsOrderly {s} (prepares a i id fg tr seg h) o = prepares-IsOrderly a i id fg tr seg s o h
Step-IsOrderly {s} (frees a i reg h) o = frees-IsOrderly a i reg s o h
Step-IsOrderly {s} (clears a i n h) o = clears-IsOrderly a i n s o
Step-IsOrderly {s} (announces a i h) o = announces-IsOrderly a i s o
Step-IsOrderly {s} (creates a i reg h) o = creates-IsOrderly a i reg s o h
Step-IsOrderly {s} (starts a i h) o = starts-IsOrderly a i s o h
Step-IsOrderly {s} (kills i id h) o = kills-IsOrderly i s o
Step-IsOrderly {s} (ends i t h g e) o = ends-IsOrderly i t s o e

pub Run-IsOrderly : {s t : System} → Run s t → IsOrderly s → IsOrderly t
Run-IsOrderly begins o = o
Run-IsOrderly (goes_on r st) o = Step-IsOrderly st (Run-IsOrderly r o)

-- static memory at the boot
abbrev pub IsZeroed : Pool → Type 0
IsZeroed p =
    ((m : ℕ) → ((p.jobs m).state ≡ job_free) × ((p.jobs m).created ≡ false) × ((p.jobs m).id ≡ 0))
    × (p.next_id ≡ 1)

-- the system behind `cli_job_pool_init`
abbrev pub boot : (ℕ → Bool) → Pool → System
boot ok p = record { pool = cli_job_pool_init ok p; duty = λ _. none }

boot_slot :
    (ok : ℕ → Bool) (p : Pool) (m : ℕ)
    → IsZeroed p
    → (((cli_job_pool_init ok p).jobs m).state ≡ job_free)
      × (((cli_job_pool_init ok p).jobs m).created ≡ false)
      × (((cli_job_pool_init ok p).jobs m).id ≡ 0)
boot_slot ok p m z =
    kept 1 (put_job 0 (record (p.jobs 0) { state = job_free; id = 0; evt_ok = ok 0 }) p) m
      (λ k. kept 0 p k z.0)
  where
    kept :
        (i : ℕ) (q : Pool) (k : ℕ)
        → ((k : ℕ)
            → ((q.jobs k).state ≡ job_free) × ((q.jobs k).created ≡ false) × ((q.jobs k).id ≡ 0))
        → (((put_job i (record (q.jobs i) { state = job_free; id = 0; evt_ok = ok i }) q).jobs
              k).state
            ≡ job_free)
          × (((put_job i (record (q.jobs i) { state = job_free; id = 0; evt_ok = ok i }) q).jobs
                k).created
              ≡ false)
          × (((put_job i (record (q.jobs i) { state = job_free; id = 0; evt_ok = ok i }) q).jobs
                k).id
              ≡ 0)
    kept i q k h = pick (k == i)
      where
        fresh : Job
        fresh = record (q.jobs i) { state = job_free; id = 0; evt_ok = ok i }

        pick :
            (b : Bool)
            → ((if b then fresh else q.jobs k).state ≡ job_free)
              × ((if b then fresh else q.jobs k).created ≡ false)
              × ((if b then fresh else q.jobs k).id ≡ 0)
        pick true = (refl, (h i).1, refl)
        pick false = h k

boot-IsOrderly : (ok : ℕ → Bool) (p : Pool) → IsZeroed p → IsOrderly (boot ok p)
boot-IsOrderly ok p z = record {
  slots = λ m.
      subst (λ t. SlotOk t ((cli_job_pool_init ok p).jobs m)) (sym (boot_slot ok p m z).0)
        (boot_slot ok p m z).1;
  duties = λ a d i e l. absurd (some-none (sym e));
  alone = λ a b d e i h k l t. absurd (some-none (sym h));
}

-- After any run from the boot of reapers, launchers, kills and ending workers, a reaper that is about to delete
-- a worker's thread finds it created and ended, and no other actor owns that slot: none reaps
-- it, and none is between the reservation of the slot and the store that frees it or sets it running. A launcher
-- behind that store may still be about to clear the id of the slot, or to print its id and label.
pub reaping-is_exclusive :
    (ok : ℕ → Bool) (p : Pool) (t : System) (a b i : ℕ) (d : Duty)
    → IsZeroed p
    → Run (boot ok p) t
    → t.duty a ≡ some (reaping i)
    → t.duty b ≡ some d
    → slot_of d ≡ some i
    → ((t.pool.jobs i).created ≡ true) × (has_ended (t.pool.jobs i).thread_state ≡ true) × (a ≡ b)
reaping-is_exclusive ok p t a b i d z r h k l =
    (held.0, held.1, o.alone a b (reaping i) d i h k refl l)
  where
    o : IsOrderly t
    o = Run-IsOrderly r (boot-IsOrderly ok p z)

    held : SlotOk job_reaping (t.pool.jobs i)
    held = subst (λ x. SlotOk x (t.pool.jobs i)) (o.duties a (reaping i) i h refl) (o.slots i)
