-- ===== src/Jobs/Protocol/Steps.antt =====
-- Every step of the protocol keeps order.
use stm32f746g_disco.Prelude.{
  ℕ, ◌≡◌, refl, sym, ap, ◌∙◌, subst, ◌≢◌, ◌⊎◌, inl, inr, Bool, Bool-cases, ==→eq, ◌==◌,
  if◌then◌else◌, false, true, false, ◌&&◌, none, some, List, eq→==, ne→==, some_eq, absurd_bool,
  some-none, Bytes,
}
use stm32f746g_disco.Core.Registry.{Entry}
use stm32f746g_disco.Jobs.Protocol.Exclusion.{
  SlotOk, DutyOk, IsOrderly, moved, rested, Harmless-IsOrderly,
}
use stm32f746g_disco.Jobs.{
  JobState, job_free, job_launching, job_running, job_reaping, ThreadState, Job, Pool, Notice,
  max_bg_jobs, is_free_job, is_running, has_ended, is_done, claim_done, finish_reap, find_slot,
  reserve, prepare, free_job, clear_id, set_running, announce, print, put_job, create_thread,
  latch_cancel,
}
use stm32f746g_disco.Jobs.Launch.{find_slot-usable}
use stm32f746g_disco.Jobs.Protocol.{
  Duty, reaping, launching, prepared, made, clearing, announcing, slot_of, System, turn_to,
  end_thread, with_registry,
}

-- The owner of a slot is alone there.
only_me :
    (a i : ℕ) (e : Duty) (s : System)
    → IsOrderly s
    → s.duty a ≡ some e
    → slot_of e ≡ some i
    → (b : ℕ) (d : Duty) → s.duty b ≡ some d
    → slot_of d ≡ some i
    → b ≡ a
only_me a i e s o h k b d g l = o.alone b a d e i g h l k

-- Nobody owns a slot that is free or has a running job.
busy_state :
    (d : Duty) (i : ℕ) (j : Job)
    → slot_of d ≡ some i
    → DutyOk d j
    → (j.state ≡ job_reaping) ⊎ (j.state ≡ job_launching)
busy_state (reaping k) i j e h = inl h
busy_state (launching k id) i j e h = inr h.0
busy_state (prepared k) i j e h = inr h.0
busy_state (made k) i j e h = inr h.0
busy_state (clearing k) i j e h = absurd (some-none (sym e))
busy_state (announcing k) i j e h = absurd (some-none (sym e))

nobody_at :
    (i : ℕ) (s : System)
    → IsOrderly s
    → (s.pool.jobs i).state ≢ job_reaping
    → (s.pool.jobs i).state ≢ job_launching
    → (b : ℕ) (d : Duty) → s.duty b ≡ some d
    → slot_of d ≢ some i
nobody_at i s o r l b d h e = elim (busy_state d i (s.pool.jobs i) e (o.duties b d i h e)) [
  | inl x ↦ r x
  | inr x ↦ l x
]

no_duty : (d : Duty) (P : Type 0) → none ≡ some d → P
no_duty d P e = absurd (some-none (sym e))

-- the duty taken up is the one named, at its slot
taken_up :
    (e d : Duty) (i k : ℕ) (j : Job)
    → slot_of e ≡ some i
    → DutyOk e j
    → some e ≡ some d
    → slot_of d ≡ some k
    → (k ≡ i) × DutyOk d j
taken_up e d i k j a h q l =
    subst (λ x. slot_of x ≡ some k → (k ≡ i) × DutyOk x j) (some_eq q)
      (λ m. (some_eq (sym m ∙ a), h)) l

-- a duty that owns nothing
owns_nothing :
    (e d : Duty) (k : ℕ) (P : Type 0) → slot_of e ≡ none → some e ≡ some d → slot_of d ≡ some k → P
owns_nothing e d k P a q l = absurd (some-none (sym l ∙ ap slot_of (sym (some_eq q)) ∙ a))

is_running_state :
    (j : Job) → is_done j ≡ true → (j.state ≡ job_running) × (has_ended j.thread_state ≡ true)
is_running_state j e = of_state j.state refl e
  where
    of_state :
        (t : JobState)
        → j.state ≡ t
        → (is_running t && has_ended j.thread_state) ≡ true
        → (j.state ≡ job_running) × (has_ended j.thread_state ≡ true)
    of_state job_running z e = (z, e)
    of_state job_free z e = absurd_bool e
    of_state job_launching z e = absurd_bool e
    of_state job_reaping z e = absurd_bool e

-- states told apart
running_free : job_running ≡ job_free → ⊥
running_free e = cc

reaping_free : job_reaping ≡ job_free → ⊥
reaping_free e = cc

launching_free : job_launching ≡ job_free → ⊥
launching_free e = cc

running_reaping : job_running ≡ job_reaping → ⊥
running_reaping e = cc

running_launching : job_running ≡ job_launching → ⊥
running_launching e = cc

-- a change of one slot, seen at every slot
anywhere :
    {A : Type 0} (i : ℕ) (j : Job) (p : Pool) (f : Job → A)
    → f j ≡ f (p.jobs i)
    → (m : ℕ) → f ((put_job i j p).jobs m) ≡ f (p.jobs m)
anywhere i j p f h m = elim (Bool-cases (m == i)) [
  | inl e ↦ rw e (h ∙ ap (λ x. f (p.jobs x)) (sym (==→eq m i e)))
  | inr e ↦ rw e refl
]

found_free : (i : ℕ) (p : Pool) → find_slot max_bg_jobs 0 p ≡ some i → (p.jobs i).state ≡ job_free
found_free i p e = of_state (p.jobs i).state refl (find_slot-usable max_bg_jobs 0 i p e).0
  where
    of_state :
        (t : JobState)
        → (p.jobs i).state ≡ t
        → (is_free_job t && (p.jobs i).evt_ok) ≡ true
        → (p.jobs i).state ≡ job_free
    of_state job_free z e = z
    of_state job_launching z e = absurd_bool e
    of_state job_running z e = absurd_bool e
    of_state job_reaping z e = absurd_bool e

slot_at :
    (i : ℕ) (t : JobState) (s : System)
    → IsOrderly s
    → (s.pool.jobs i).state ≡ t
    → SlotOk t (s.pool.jobs i)
slot_at i t s o e = subst (λ x. SlotOk x (s.pool.jobs i)) e (o.slots i)

launching_ok : (j : Job) → j.state ≡ job_launching → SlotOk j.state j
launching_ok j e = subst (λ t. SlotOk t j) (sym e) tt

pub claims-IsOrderly :
    (a i : ℕ) (s : System)
    → IsOrderly s
    → is_done (s.pool.jobs i) ≡ true
    → IsOrderly (turn_to a (some (reaping i)) (claim_done i s.pool) s)
claims-IsOrderly a i s o e =
    moved a i (some (reaping i)) s (claim_done i s.pool) o (λ m n. rw (ne→== m i n))
      (λ b d h k. absurd (
        nobody_at i s o (λ z. running_reaping (sym r.0 ∙ z)) (λ z. running_launching (sym r.0 ∙ z))
          b d h k))
      (rw (eq→== i i refl) (slot_at i job_running s o r.0, r.1))
      (λ d k. taken_up (reaping i) d i k _ refl (rw (eq→== i i refl) refl))
  where
    r : ((s.pool.jobs i).state ≡ job_running) × (has_ended (s.pool.jobs i).thread_state ≡ true)
    r = is_running_state (s.pool.jobs i) e

pub reaps-IsOrderly :
    (a i : ℕ) (s : System)
    → IsOrderly s
    → s.duty a ≡ some (reaping i)
    → IsOrderly (turn_to a none (finish_reap i s.pool) s)
reaps-IsOrderly a i s o h =
    moved a i none s (finish_reap i s.pool) o (λ m n. rw (ne→== m i n))
      (only_me a i (reaping i) s o h refl) (rw (eq→== i i refl) refl) (λ d k e. no_duty d _ e)

pub reserves-IsOrderly :
    (a i : ℕ) (s : System)
    → IsOrderly s
    → find_slot max_bg_jobs 0 s.pool ≡ some i
    → IsOrderly (turn_to a (some (launching i s.pool.next_id)) (reserve (some i) s.pool) s)
reserves-IsOrderly a i s o f =
    moved a i (some (launching i s.pool.next_id)) s (reserve (some i) s.pool) o
      (λ m n. rw (ne→== m i n))
      (λ b d e k. absurd (
        nobody_at i s o (λ z. reaping_free (sym z ∙ free)) (λ z. launching_free (sym z ∙ free)) b d
          e k))
      (rw (eq→== i i refl) tt)
      (λ d k.
        taken_up (launching i s.pool.next_id) d i k _ refl
          (rw (eq→== i i refl) (refl, slot_at i job_free s o free)))
  where
    free : (s.pool.jobs i).state ≡ job_free
    free = found_free i s.pool f

pub prepares-IsOrderly :
    (a i id fg tr : ℕ) (seg : Bytes) (s : System)
    → IsOrderly s
    → s.duty a ≡ some (launching i id)
    → IsOrderly (turn_to a (some (prepared i)) (prepare i id fg tr seg s.pool) s)
prepares-IsOrderly a i id fg tr seg s o h =
    moved a i (some (prepared i)) s (prepare i id fg tr seg s.pool) o (λ m n. rw (ne→== m i n))
      (only_me a i (launching i id) s o h refl)
      (launching_ok ((prepare i id fg tr seg s.pool).jobs i) (rw (eq→== i i refl) g.0))
      (λ d k. taken_up (prepared i) d i k _ refl (rw (eq→== i i refl) g))
  where
    g : DutyOk (launching i id) (s.pool.jobs i)
    g = o.duties a (launching i id) i h refl

pub frees-IsOrderly :
    (a i : ℕ) (reg : List Entry) (s : System)
    → IsOrderly s
    → s.duty a ≡ some (prepared i)
    → IsOrderly (turn_to a (some (clearing i)) (free_job i (with_registry reg s.pool)) s)
frees-IsOrderly a i reg s o h =
    moved a i (some (clearing i)) s (free_job i (with_registry reg s.pool)) o
      (λ m n. rw (ne→== m i n)) (only_me a i (prepared i) s o h refl)
      (rw (eq→== i i refl) (o.duties a (prepared i) i h refl).1)
      (λ d k e l. owns_nothing (clearing i) d k _ refl e l)

pub clears-IsOrderly :
    (a i : ℕ) (n : Notice) (s : System)
    → IsOrderly s
    → IsOrderly (turn_to a none (print n (clear_id i s.pool)) s)
clears-IsOrderly a i n s o =
    rested a (record s { pool = print n (clear_id i s.pool) })
      (Harmless-IsOrderly s (print n (clear_id i s.pool)) o (record {
        same_state = anywhere i _ s.pool (λ j. j.state) refl;
        same_created = anywhere i _ s.pool (λ j. j.created) refl;
        ended = λ m e. anywhere i _ s.pool (λ j. has_ended j.thread_state) refl m ∙ e;
      }))

pub creates-IsOrderly :
    (a i : ℕ) (reg : List Entry) (s : System)
    → IsOrderly s
    → s.duty a ≡ some (prepared i)
    → IsOrderly (turn_to a (some (made i)) (create_thread i (with_registry reg s.pool)) s)
creates-IsOrderly a i reg s o h =
    moved a i (some (made i)) s (create_thread i (with_registry reg s.pool)) o
      (λ m n. rw (ne→== m i n)) (only_me a i (prepared i) s o h refl)
      (launching_ok ((create_thread i (with_registry reg s.pool)).jobs i) (rw (eq→== i i refl) g.0))
      (λ d k. taken_up (made i) d i k _ refl (rw (eq→== i i refl) (g.0, refl)))
  where
    g : DutyOk (prepared i) (s.pool.jobs i)
    g = o.duties a (prepared i) i h refl

pub starts-IsOrderly :
    (a i : ℕ) (s : System)
    → IsOrderly s
    → s.duty a ≡ some (made i)
    → IsOrderly (turn_to a (some (announcing i)) (set_running i s.pool) s)
starts-IsOrderly a i s o h =
    moved a i (some (announcing i)) s (set_running i s.pool) o (λ m n. rw (ne→== m i n))
      (only_me a i (made i) s o h refl) (rw (eq→== i i refl) (o.duties a (made i) i h refl).1)
      (λ d k e l. owns_nothing (announcing i) d k _ refl e l)

pub announces-IsOrderly :
    (a i : ℕ) (s : System) → IsOrderly s → IsOrderly (turn_to a none (announce i s.pool) s)
announces-IsOrderly a i s o =
    rested a (record s { pool = announce i s.pool })
      (Harmless-IsOrderly s (announce i s.pool) o
        (record { same_state = λ m. refl; same_created = λ m. refl; ended = λ m e. e }))

pub kills-IsOrderly :
    (i : ℕ) (s : System) → IsOrderly s → IsOrderly (record s { pool = latch_cancel i s.pool })
kills-IsOrderly i s o = Harmless-IsOrderly s (latch_cancel i s.pool) o (record {
  same_state = anywhere i _ s.pool (λ j. j.state) refl;
  same_created = anywhere i _ s.pool (λ j. j.created) refl;
  ended = λ m e. anywhere i _ s.pool (λ j. has_ended j.thread_state) refl m ∙ e;
})

pub ends-IsOrderly :
    (i : ℕ) (t : ThreadState) (s : System)
    → IsOrderly s
    → has_ended t ≡ true
    → IsOrderly (record s { pool = end_thread i t s.pool })
ends-IsOrderly i t s o h = Harmless-IsOrderly s (end_thread i t s.pool) o (record {
  same_state = anywhere i _ s.pool (λ j. j.state) refl;
  same_created = anywhere i _ s.pool (λ j. j.created) refl;
  ended = λ m e. pick (m == i) m e;
})
  where
    pick :
        (b : Bool) (m : ℕ)
        → has_ended (s.pool.jobs m).thread_state ≡ true
        → has_ended
            (if b then record (s.pool.jobs i) { thread_state = t } else s.pool.jobs m).thread_state
          ≡ true
    pick true m e = h
    pick false m e = e
