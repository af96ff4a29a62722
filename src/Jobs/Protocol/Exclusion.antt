-- ===== src/Jobs/Protocol/Exclusion.antt =====
-- No two actors own one slot, and a thread that is deleted has ended.
use stm32f746g_disco.Prelude.{
  ℕ, ◌≡◌, refl, sym, ap, ◌∙◌, subst, ◌≢◌, ◌⊎◌, inl, inr, Bool, true, false, Option, none, some-none,
  some, ◌==◌, if◌then◌else◌, ==→eq, ==→ne, Bool-cases,
}
use stm32f746g_disco.Jobs.{
  JobState, job_free, job_launching, job_running, job_reaping, Job, Pool, has_ended,
}
use stm32f746g_disco.Jobs.Protocol.{
  Duty, reaping, launching, prepared, made, clearing, announcing, slot_of, System, turn_to,
}

-- what holds of a slot
abbrev pub SlotOk : JobState → Job → Type 0
SlotOk job_free j = j.created ≡ false
SlotOk job_launching j = Unit {0}
SlotOk job_running j = j.created ≡ true
SlotOk job_reaping j = (j.created ≡ true) × (has_ended j.thread_state ≡ true)

-- what an actor can rely on at the slot that it owns
abbrev pub DutyOk : Duty → Job → Type 0
DutyOk (reaping i) j = j.state ≡ job_reaping
DutyOk (launching i id) j = (j.state ≡ job_launching) × (j.created ≡ false)
DutyOk (prepared i) j = (j.state ≡ job_launching) × (j.created ≡ false)
DutyOk (made i) j = (j.state ≡ job_launching) × (j.created ≡ true)
DutyOk (clearing i) j = Unit {0}
DutyOk (announcing i) j = Unit {0}

pub record IsOrderly (s : System) : Type 0 where
  pub slots : (i : ℕ) → SlotOk (s.pool.jobs i).state (s.pool.jobs i)
  pub duties :
      (a : ℕ) (d : Duty) (i : ℕ) → s.duty a ≡ some d → slot_of d ≡ some i → DutyOk d (s.pool.jobs i)
  pub alone :
      (a b : ℕ) (d e : Duty) (i : ℕ)
      → s.duty a ≡ some d
      → s.duty b ≡ some e
      → slot_of d ≡ some i
      → slot_of e ≡ some i
      → a ≡ b

-- One slot has changed.
abbrev pub Only : ℕ → Pool → Pool → Type 0
Only i p p' = (m : ℕ) → m ≢ i → p'.jobs m ≡ p.jobs m

-- To prove a fact of every slot, prove it of the one that has changed and of the others.
pub at_index : (P : ℕ → Type 0) (i m : ℕ) → P i → (m ≢ i → P m) → P m
at_index P i m here there = elim (Bool-cases (m == i)) [
  | inl e ↦ subst P (sym (==→eq m i e)) here
  | inr e ↦ there (==→ne m i e)
]

-- Whose duty it is: the actor's that has moved, or one that was there.
whose :
    (a b : ℕ) (d' : Option Duty) (d : Duty) (duty : ℕ → Option Duty)
    → (if b == a then d' else duty b) ≡ some d
    → ((b ≡ a) × (d' ≡ some d)) ⊎ ((b ≢ a) × (duty b ≡ some d))
whose a b d' d duty e = pick (b == a) refl e
  where
    pick :
        (c : Bool)
        → (b == a) ≡ c
        → (if c then d' else duty b) ≡ some d
        → ((b ≡ a) × (d' ≡ some d)) ⊎ ((b ≢ a) × (duty b ≡ some d))
    pick true z e = inl (==→eq b a z, e)
    pick false z e = inr (==→ne b a z, e)

-- Where an actor works at a slot that no other owns, and the slot and its new duty are right, all is.
pub moved :
    (a i : ℕ) (d' : Option Duty) (s : System) (p' : Pool)
    → IsOrderly s
    → Only i s.pool p'
    → ((b : ℕ) (d : Duty) → s.duty b ≡ some d → slot_of d ≡ some i → b ≡ a)
    → SlotOk (p'.jobs i).state (p'.jobs i)
    → ((d : Duty) (k : ℕ) → d' ≡ some d → slot_of d ≡ some k → (k ≡ i) × DutyOk d (p'.jobs i))
    → IsOrderly (turn_to a d' p' s)
moved a i d' s p' o c own ok new = record {
  slots = λ m.
      at_index (λ x. SlotOk (p'.jobs x).state (p'.jobs x)) i m ok (λ n. rw (c m n) (o.slots m));
  duties = λ b d k e l. elim (whose a b d' d s.duty e) [
    | inl q ↦ subst (λ x. DutyOk d (p'.jobs x)) (sym (new d k q.1 l).0) (new d k q.1 l).1
    | inr q ↦ rw (c k (λ z. q.0 (own b d q.1 (l ∙ ap some z)))) (o.duties b d k q.1 l)
  ];
  alone = λ b b' d e k q r l t. elim (whose a b d' d s.duty q) [
    | inl x ↦ elim (whose a b' d' e s.duty r) [
      | inl y ↦ x.0 ∙ sym y.0
      | inr y ↦ absurd (y.0 (own b' e y.1 (t ∙ ap some (new d k x.1 l).0)))
    ]
    | inr x ↦ elim (whose a b' d' e s.duty r) [
      | inl y ↦ absurd (x.0 (own b d x.1 (l ∙ ap some (new e k y.1 t).0)))
      | inr y ↦ o.alone b b' d e k x.1 y.1 l t
    ]
  ];
}

-- What leaves the states and the existence of the threads alone is harmless.
pub record Harmless (p p' : Pool) : Type 0 where
  pub same_state : (m : ℕ) → (p'.jobs m).state ≡ (p.jobs m).state
  pub same_created : (m : ℕ) → (p'.jobs m).created ≡ (p.jobs m).created
  pub ended :
      (m : ℕ) → has_ended (p.jobs m).thread_state ≡ true → has_ended (p'.jobs m).thread_state ≡ true

slot_kept :
    (t : JobState) (j j' : Job)
    → j'.created ≡ j.created
    → (has_ended j.thread_state ≡ true → has_ended j'.thread_state ≡ true)
    → SlotOk t j
    → SlotOk t j'
slot_kept job_free j j' c e h = c ∙ h
slot_kept job_launching j j' c e h = tt
slot_kept job_running j j' c e h = c ∙ h
slot_kept job_reaping j j' c e h = (c ∙ h.0, e h.1)

duty_kept :
    (d : Duty) (j j' : Job) → j'.state ≡ j.state → j'.created ≡ j.created → DutyOk d j → DutyOk d j'
duty_kept (reaping i) j j' s c h = s ∙ h
duty_kept (launching i id) j j' s c h = (s ∙ h.0, c ∙ h.1)
duty_kept (prepared i) j j' s c h = (s ∙ h.0, c ∙ h.1)
duty_kept (made i) j j' s c h = (s ∙ h.0, c ∙ h.1)
duty_kept (clearing i) j j' s c h = tt
duty_kept (announcing i) j j' s c h = tt

pub Harmless-IsOrderly :
    (s : System) (p' : Pool) → IsOrderly s → Harmless s.pool p' → IsOrderly (record s { pool = p' })
Harmless-IsOrderly s p' o h = record {
  slots = λ m.
      subst (λ t. SlotOk t (p'.jobs m)) (sym (h.same_state m))
        (slot_kept (s.pool.jobs m).state (s.pool.jobs m) (p'.jobs m) (h.same_created m) (h.ended m)
          (o.slots m));
  duties = λ b d i e l.
      duty_kept d (s.pool.jobs i) (p'.jobs i) (h.same_state i) (h.same_created i)
        (o.duties b d i e l);
  alone = o.alone;
}

-- an actor that has nothing more to do
pub rested : (a : ℕ) (s : System) → IsOrderly s → IsOrderly (turn_to a none s.pool s)
rested a s o = record {
  slots = o.slots;
  duties = λ b d i e l. o.duties b d i (had b d e) l;
  alone = λ b b' d e i q r l t. o.alone b b' d e i (had b d q) (had b' e r) l t;
}
  where
    had : (b : ℕ) (d : Duty) → (if b == a then none else s.duty b) ≡ some d → s.duty b ≡ some d
    had b d e = elim (whose a b none d s.duty e) [
      | inl q ↦ absurd (some-none (sym q.1))
      | inr q ↦ q.1
    ]
