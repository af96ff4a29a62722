-- ===== src/Jobs/Start.antt =====
-- A worker that has ended makes room for the next job.
use stm32f746g_disco.Prelude.{
  ℕ, zero, suc, ◌<◌, ◌≡◌, refl, sym, ap, ◌∙◌, subst, ◌≢◌, Bool, true, false, Option, none, some,
  List, arith, if◌then◌else◌, eq→==, some_eq, absurd_bool, some-none, take, Bytes,
}
use stm32f746g_disco.Core.Registry.{Entry, cli_register_thread}
use stm32f746g_disco.Core.Registry.Room.{has_room, register_room, unregister-has_room}
use stm32f746g_disco.Jobs.{
  job_free, job_running, Job, Pool, max_bg_jobs, is_done, claim_done, finish_reap, reap_at,
  reap_from, cli_jobs_reap, cli_seg_blank, find_slot, reserve, prepare, launch_in, launch_slot,
  cli_job_launch,
}
use stm32f746g_disco.Jobs.Reap.{reaped, reap-jobs, reap_from-next_id}
use stm32f746g_disco.Jobs.Launch.{
  is_usable, find_slot-usable, find_slot-none, Tried, launch_slot-Tried,
}

-- The addresses of an instance and its thread are not NULL.
abbrev pub IsPlaced : Pool → Type 0
IsPlaced p = (m : ℕ) → m < max_bg_jobs → ((p.jobs m).thread ≢ 0) × ((p.jobs m).inst ≢ 0)

reaped-thread : (j : Job) → ((reaped j).thread ≡ j.thread) × ((reaped j).inst ≡ j.inst)
reaped-thread j = pick (is_done j)
  where
    pick :
        (b : Bool)
        → ((if b then record j { created = false; id = 0; state = job_free } else j).thread
            ≡ j.thread)
          × ((if b then record j { created = false; id = 0; state = job_free } else j).inst
              ≡ j.inst)
    pick true = (refl, refl)
    pick false = (refl, refl)

reaped-IsPlaced : (p : Pool) → IsPlaced p → IsPlaced (cli_jobs_reap p)
reaped-IsPlaced p a m l = (
  (λ e.
      (a m l).0
        (sym ((reaped-thread (p.jobs m)).0) ∙ ap (λ j. j.thread) (sym (reap-jobs p m l)) ∙ e)),
  (λ e.
      (a m l).1
        (sym ((reaped-thread (p.jobs m)).1) ∙ ap (λ j. j.inst) (sym (reap-jobs p m l)) ∙ e)),
)

reap_from-room :
    (k i : ℕ) (p : Pool) → has_room p.registry ≡ true → has_room (reap_from k i p).registry ≡ true
unfolding reap_from
reap_from-room zero i p h = h
reap_from-room (suc k) i p h = reap_from-room k (suc i) (reap_at i p) (pick (is_done (p.jobs i)))
  where
    pick : (b : Bool) → has_room (if b then finish_reap i (claim_done i p) else p).registry ≡ true
    pick true = unregister-has_room ((claim_done i p).jobs i).thread p.registry h
    pick false = h

created : (i : ℕ) (r : Bool × List Entry) (p : Pool) → r.0 ≡ true → (launch_in i true r p).0 ≡ true
created i (true, reg) p e = refl
created i (false, reg) p e = absurd_bool e

slot_starts :
    (fg tr m : ℕ) (seg : Bytes) (p : Pool) (o : Option ℕ)
    → find_slot max_bg_jobs 0 p ≡ o
    → m < max_bg_jobs
    → is_usable (p.jobs m) ≡ true
    → IsPlaced p
    → has_room p.registry ≡ true
    → (i : ℕ) × (i < max_bg_jobs) × (o ≡ some i) × ((launch_slot true fg tr seg p o).0 ≡ true)
slot_starts fg tr m seg p none f l u a h =
    absurd_bool (sym (find_slot-none max_bg_jobs 0 m p f (omega arith) l) ∙ u)
slot_starts fg tr m seg p (some i) f l u a h = (
  i,
  below,
  refl,
  created i (cli_register_thread (q.jobs i).thread (q.jobs i).inst q.registry) q (
      rw (eq→== i i refl)
        (register_room (p.jobs i).thread (p.jobs i).inst p.registry (a i below).0 (a i below).1 h)),
)
  where
    q : Pool
    q = prepare i p.next_id fg tr seg (reserve (some i) p)

    below : i < max_bg_jobs
    below = (find_slot-usable max_bg_jobs 0 i p f).2

-- The launch has gone through: a slot runs with the id; its worker has the segment, cut to the 255 bytes of
-- its line, for the foreground and its transport, with no cancel request and no event.
abbrev pub Runs : ℕ → ℕ → ℕ → Bytes → Bool × Pool → Type 0
Runs id fg tr seg q =
    (q.0 ≡ true)
    × (i : ℕ) × (i < max_bg_jobs)
    × ((q.1.jobs i).state ≡ job_running)
    × ((q.1.jobs i).id ≡ id)
    × ((q.1.jobs i).worker.line ≡ take 255 seg)
    × ((q.1.jobs i).label ≡ take 39 seg)
    × ((q.1.jobs i).worker.fg ≡ fg)
    × ((q.1.jobs i).worker.tr ≡ tr)
    × ((q.1.jobs i).worker.cancel_req ≡ false)
    × ((q.1.jobs i).worker.events ≡ 0)

slot-Runs :
    (fg tr : ℕ) (seg : Bytes) (p : Pool) (o : Option ℕ)
    → (i : ℕ) × (i < max_bg_jobs) × (o ≡ some i) × ((launch_slot true fg tr seg p o).0 ≡ true)
    → Runs p.next_id fg tr seg (launch_slot true fg tr seg p o)
slot-Runs fg tr seg p none s = absurd (some-none (sym s.2))
slot-Runs fg tr seg p (some i) s = (
  s.3,
  i,
  subst (λ x. x < max_bg_jobs) (sym (some_eq s.2)) s.1,
  (t.runs s.3).0,
  (t.runs s.3).1,
  ap (λ w. w.line) (t.runs s.3).3,
  (t.runs s.3).2,
  ap (λ w. w.fg) (t.runs s.3).3,
  ap (λ w. w.tr) (t.runs s.3).3,
  ap (λ w. w.cancel_req) (t.runs s.3).3,
  ap (λ w. w.events) (t.runs s.3).3,
)
  where
    t : Tried i p.next_id fg tr seg p (launch_slot true fg tr seg p (some i))
    t = launch_slot-Tried i fg tr seg true p

-- Where a slot that has its event group is free or its worker has ended, the addresses of the slots'
-- instances and threads are not NULL, the registry has room and ThreadX creates the thread, a segment that is not blank
-- is launched: it returns 0, and some slot runs with the next id, the first 255 bytes of the segment as its line
-- and the first 39 as its label, for the caller and its transport, without a cancel request or an event.
pub launch-Runs :
    (fg tr m : ℕ) (seg : Bytes) (p : Pool)
    → cli_seg_blank seg ≡ false
    → m < max_bg_jobs
    → is_usable (reaped (p.jobs m)) ≡ true
    → IsPlaced p
    → has_room p.registry ≡ true
    → Runs p.next_id fg tr seg (cli_job_launch true fg tr seg p)
launch-Runs fg tr m seg p b l u a h = rw b (
    subst (λ n. Runs n fg tr seg (launch_slot true fg tr seg q (find_slot max_bg_jobs 0 q)))
      (reap_from-next_id max_bg_jobs 0 p)
      (slot-Runs fg tr seg q (find_slot max_bg_jobs 0 q) (
        slot_starts fg tr m seg q (find_slot max_bg_jobs 0 q) refl l
          (ap is_usable (reap-jobs p m l) ∙ u) (reaped-IsPlaced p a)
          (reap_from-room max_bg_jobs 0 p h))))
  where
    q : Pool
    q = cli_jobs_reap p
