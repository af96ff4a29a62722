-- ===== src/Jobs/Launch.antt =====
-- `cli_job_launch` on every branch: what its result tells of the pool.
use stm32f746g_disco.Prelude.{
  ℕ, zero, suc, ◌+◌, ◌-◌, ◌%◌, ◌^◌, ◌≤◌, ◌<◌, ◌≡◌, refl, sym, ap, ◌∙◌, subst, ◌≢◌, inl, inr, Bool,
  true, false, ◌&&◌, Option, none, some, List, arith, ◌==◌, if◌then◌else◌, eq→==, ne→==, ==→eq,
  ==→ne, Bool-cases, some_eq, absurd_bool, some-none, take, Bytes,
}
use stm32f746g_disco.Core.Registry.{Entry, cli_register_thread}
use stm32f746g_disco.Jobs.{
  JobState, job_free, job_launching, job_running, job_reaping, Job, Pool, max_bg_jobs,
  job_label_max, is_free_job, is_done, cli_jobs_reap, cli_seg_blank, find_slot, reserve,
  cli_job_inst_reset, prepare, launch_in, launch_slot, cli_job_launch,
}
use stm32f746g_disco.Jobs.Reap.{reaped, reap-jobs}

-- a slot that a launch can take
abbrev pub is_usable : Job → Bool
is_usable j = is_free_job j.state && j.evt_ok

pub find_slot-usable :
    (k i m : ℕ) (p : Pool)
    → find_slot k i p ≡ some m
    → (is_usable (p.jobs m) ≡ true) × (i ≤ m) × (m < i + k)
unfolding find_slot
find_slot-usable zero i m p e = absurd (some-none (sym e))
find_slot-usable (suc k) i m p e =
    found (is_usable (p.jobs i)) refl e (find_slot-usable k (suc i) m p)
  where
    found :
        (b : Bool)
        → is_usable (p.jobs i) ≡ b
        → (if b then some i else find_slot k (suc i) p) ≡ some m
        → (find_slot k (suc i) p ≡ some m
            → (is_usable (p.jobs m) ≡ true) × (suc i ≤ m) × (m < suc i + k))
        → (is_usable (p.jobs m) ≡ true) × (i ≤ m) × (m < i + suc k)
    found true u e _ = (
      subst (λ x. is_usable (p.jobs x) ≡ true) (some_eq e) u,
      omega (arith, some_eq e),
      omega (arith, some_eq e),
    )
    found false u e rest = ((rest e).0, omega (arith, (rest e).1), omega (arith, (rest e).2))

-- Where no slot is found, none in reach can be taken.
pub find_slot-none :
    (k i m : ℕ) (p : Pool)
    → find_slot k i p ≡ none
    → i ≤ m
    → m < i + k
    → is_usable (p.jobs m) ≡ false
unfolding find_slot
find_slot-none zero i m p e l h = absurd (omega arith)
find_slot-none (suc k) i m p e l h =
    lost (is_usable (p.jobs i)) refl e (find_slot-none k (suc i) m p)
  where
    lost :
        (b : Bool)
        → is_usable (p.jobs i) ≡ b
        → (if b then some i else find_slot k (suc i) p) ≡ none
        → (find_slot k (suc i) p ≡ none → suc i ≤ m → m < suc i + k → is_usable (p.jobs m) ≡ false)
        → is_usable (p.jobs m) ≡ false
    lost true u e _ = absurd (some-none e)
    lost false u e rest = elim (Bool-cases (m == i)) [
      | inl q ↦ subst (λ x. is_usable (p.jobs x) ≡ false) (sym (==→eq m i q)) u
      | inr q ↦ rest e (omega (arith, ==→ne m i q)) (omega arith)
    ]

-- The pool after a launch in slot `i`, where it fails and where it succeeds.
pub record Tried (i id : ℕ) (fg tr : ℕ) (seg : Bytes) (p : Pool) (q : Bool × Pool) : Type 0 where
  pub others : (m : ℕ) → m ≢ i → q.1.jobs m ≡ p.jobs m
  pub ids : q.1.next_id ≡ (p.next_id + 1) % 2 ^ 32
  pub failed :
      q.0 ≡ false
      → ((q.1.jobs i).state ≡ job_free)
        × ((q.1.jobs i).id ≡ 0)
        × ((q.1.jobs i).created ≡ (p.jobs i).created)
  pub runs :
      q.0 ≡ true
      → ((q.1.jobs i).state ≡ job_running)
        × ((q.1.jobs i).id ≡ id)
        × ((q.1.jobs i).label ≡ take (job_label_max - 1) seg)
        × ((q.1.jobs i).worker ≡ cli_job_inst_reset fg tr seg)
        × ((q.1.jobs i).created ≡ true)

launch_in-Tried :
    (i fg tr : ℕ) (seg : Bytes) (ok : Bool) (p : Pool) (r : Bool × List Entry)
    → Tried i p.next_id fg tr seg p
        (launch_in i ok r (prepare i p.next_id fg tr seg (reserve (some i) p)))
launch_in-Tried i fg tr seg ok p (false, reg) = record {
  others = λ m h. rw (ne→== m i h);
  ids = refl;
  failed = λ _. rw (eq→== i i refl) (refl, refl, refl);
  runs = λ e. absurd_bool e;
}
launch_in-Tried i fg tr seg true p (true, reg) = record {
  others = λ m h. rw (ne→== m i h);
  ids = refl;
  failed = λ e. absurd_bool (sym e);
  runs = λ _. rw (eq→== i i refl) (refl, refl, refl, refl, refl);
}
launch_in-Tried i fg tr seg false p (true, reg) = record {
  others = λ m h. rw (ne→== m i h);
  ids = refl;
  failed = λ _. rw (eq→== i i refl) (refl, refl, refl);
  runs = λ e. absurd_bool e;
}

-- What a launch that reserves a slot does to it.
pub launch_slot-Tried :
    (i fg tr : ℕ) (seg : Bytes) (ok : Bool) (p : Pool)
    → Tried i p.next_id fg tr seg p (launch_slot ok fg tr seg p (some i))
launch_slot-Tried i fg tr seg ok p =
    launch_in-Tried i fg tr seg ok p
      (cli_register_thread (q.jobs i).thread (q.jobs i).inst q.registry)
  where
    q : Pool
    q = prepare i p.next_id fg tr seg (reserve (some i) p)

-- A free slot has no id.
abbrev pub Blank : Pool → Type 0
Blank p = (m : ℕ) → m < max_bg_jobs → is_free_job (p.jobs m).state ≡ true → (p.jobs m).id ≡ 0

reaped-Blank : (p : Pool) → Blank p → Blank (cli_jobs_reap p)
reaped-Blank p h m l f =
    rw (reap-jobs p m l) (pick (is_done (p.jobs m)) (rw (reap-jobs p m l) at f))
  where
    pick :
        (b : Bool)
        → is_free_job
            (if b
              then record (p.jobs m) { created = false; id = 0; state = job_free }
              else p.jobs m).state
          ≡ true
        → (if b
            then record (p.jobs m) { created = false; id = 0; state = job_free }
            else p.jobs m).id
          ≡ 0
    pick true e = refl
    pick false e = h m l e

free_state : (s : JobState) → is_free_job s ≡ true → s ≡ job_free
free_state job_free e = refl
free_state job_launching e = absurd_bool e
free_state job_running e = absurd_bool e
free_state job_reaping e = absurd_bool e

slot_same :
    (fg tr m : ℕ) (seg : Bytes) (ok : Bool) (p : Pool) (o : Option ℕ)
    → find_slot max_bg_jobs 0 p ≡ o
    → m < max_bg_jobs
    → Blank p
    → (launch_slot ok fg tr seg p o).0 ≡ false
    → (((launch_slot ok fg tr seg p o).1.jobs m).state ≡ (p.jobs m).state)
      × (((launch_slot ok fg tr seg p o).1.jobs m).id ≡ (p.jobs m).id)
slot_same fg tr m seg ok p none f l b e = (refl, refl)
slot_same fg tr m seg ok p (some i) f l b e = elim (Bool-cases (m == i)) [
  | inl q ↦ tried_itself (==→eq m i q)
  | inr q ↦
      (ap (λ j. j.state) (t.others m (==→ne m i q)), ap (λ j. j.id) (t.others m (==→ne m i q)))
]
  where
    t : Tried i p.next_id fg tr seg p (launch_slot ok fg tr seg p (some i))
    t = launch_slot-Tried i fg tr seg ok p

    was_free : is_free_job (p.jobs i).state ≡ true
    was_free = both (is_free_job (p.jobs i).state) (find_slot-usable max_bg_jobs 0 i p f).0
      where
        both : (a : Bool) → (a && (p.jobs i).evt_ok) ≡ true → a ≡ true
        both true e = refl
        both false e = absurd_bool e

    itself :
        (((launch_slot ok fg tr seg p (some i)).1.jobs i).state ≡ (p.jobs i).state)
        × (((launch_slot ok fg tr seg p (some i)).1.jobs i).id ≡ (p.jobs i).id)
    itself = (
      (t.failed e).0 ∙ sym (free_state (p.jobs i).state was_free),
      (t.failed e).1 ∙ sym (b i (find_slot-usable max_bg_jobs 0 i p f).2 was_free),
    )

    tried_itself :
        m ≡ i
        → (((launch_slot ok fg tr seg p (some i)).1.jobs m).state ≡ (p.jobs m).state)
          × (((launch_slot ok fg tr seg p (some i)).1.jobs m).id ≡ (p.jobs m).id)
    tried_itself q =
        subst
          (λ x.
            (((launch_slot ok fg tr seg p (some i)).1.jobs x).state ≡ (p.jobs x).state)
            × (((launch_slot ok fg tr seg p (some i)).1.jobs x).id ≡ (p.jobs x).id))
          (sym q) itself

-- Where the free slots have no id: a launch that fails, for want of a slot, of room in the registry or of
-- a thread, leaves every slot in the state and with the id that reaping leaves it; the label and the
-- worker of the slot that was tried are not spoken of. Nothing else runs meanwhile.
pub failed_launch-same :
    (ok : Bool) (fg tr m : ℕ) (seg : Bytes) (p : Pool)
    → m < max_bg_jobs
    → Blank p
    → (cli_job_launch ok fg tr seg p).0 ≡ false
    → (((cli_job_launch ok fg tr seg p).1.jobs m).state ≡ (reaped (p.jobs m)).state)
      × (((cli_job_launch ok fg tr seg p).1.jobs m).id ≡ (reaped (p.jobs m)).id)
failed_launch-same ok fg tr m seg p l b e =
    (s.0 ∙ ap (λ j. j.state) (reap-jobs p m l), s.1 ∙ ap (λ j. j.id) (reap-jobs p m l))
  where
    q : Pool
    q = cli_jobs_reap p

    tried : Bool × Pool
    tried = launch_slot ok fg tr seg q (find_slot max_bg_jobs 0 q)

    unless_blank :
        (c : Bool)
        → (if c then (true, q) else tried).0 ≡ false
        → (((if c then (true, q) else tried).1.jobs m).state ≡ (q.jobs m).state)
          × (((if c then (true, q) else tried).1.jobs m).id ≡ (q.jobs m).id)
    unless_blank true e = absurd_bool (sym e)
    unless_blank false e =
        slot_same fg tr m seg ok q (find_slot max_bg_jobs 0 q) refl l (reaped-Blank p b) e

    s :
        (((cli_job_launch ok fg tr seg p).1.jobs m).state ≡ (q.jobs m).state)
        × (((cli_job_launch ok fg tr seg p).1.jobs m).id ≡ (q.jobs m).id)
    s = unless_blank (cli_seg_blank seg) e
