-- ===== src/Jobs/Reap.antt =====
-- What the reaper does to the slots: the workers that have ended are gone, the others stay.
use stm32f746g_disco.Prelude.{
  ℕ, zero, suc, ◌+◌, ◌<◌, ◌≡◌, refl, sym, ap, ◌∙◌, subst, ◌≢◌, inl, inr, Bool, true, false, ◌&&◌,
  arith, ltb, leb, ◌==◌, if◌then◌else◌, eq→==, ne→==, ==→eq, ==→ne, Bool-cases,
}
use stm32f746g_disco.Jobs.{
  Job, Pool, job_free, max_bg_jobs, is_done, put_job, claim_done, finish_reap, reap_at, reap_from,
  cli_jobs_reap,
}

-- a slot after the reaper has passed
abbrev pub reaped : Job → Job
reaped j = if is_done j then record j { created = false; id = 0; state = job_free } else j

-- whether `m` is one of the `k` slots from `i` on
abbrev pub in_range : ℕ → ℕ → ℕ → Bool
in_range k i m = leb i m && ltb m (i + k)

put_self : (i : ℕ) (j : Job) (p : Pool) → (put_job i j p).jobs i ≡ j
put_self i j p = rw (eq→== i i refl)

pub put_other : (i m : ℕ) (j : Job) (p : Pool) → m ≢ i → (put_job i j p).jobs m ≡ p.jobs m
put_other i m j p h = rw (ne→== m i h)

reap_at_self : (i : ℕ) (p : Pool) → (reap_at i p).jobs i ≡ reaped (p.jobs i)
reap_at_self i p = pick (is_done (p.jobs i))
  where
    pick :
        (b : Bool)
        → (if b then finish_reap i (claim_done i p) else p).jobs i ≡ (
            if b then record (p.jobs i) { created = false; id = 0; state = job_free } else p.jobs i)
    pick true = rw (eq→== i i refl)
    pick false = refl

reap_at_other : (i m : ℕ) (p : Pool) → m ≢ i → (reap_at i p).jobs m ≡ p.jobs m
reap_at_other i m p h = pick (is_done (p.jobs i))
  where
    pick : (b : Bool) → (if b then finish_reap i (claim_done i p) else p).jobs m ≡ p.jobs m
    pick true = rw (ne→== m i h)
    pick false = refl

reap_at-next_id : (i : ℕ) (p : Pool) → (reap_at i p).next_id ≡ p.next_id
reap_at-next_id i p = pick (is_done (p.jobs i))
  where
    pick : (b : Bool) → (if b then finish_reap i (claim_done i p) else p).next_id ≡ p.next_id
    pick true = refl
    pick false = refl

pub reap_from-next_id : (k i : ℕ) (p : Pool) → (reap_from k i p).next_id ≡ p.next_id
unfolding reap_from
reap_from-next_id zero i p = refl
reap_from-next_id (suc k) i p = reap_from-next_id k (suc i) (reap_at i p) ∙ reap_at-next_id i p

pub reap_from-outside :
    (k i m : ℕ) (p : Pool) → in_range k i m ≡ false → (reap_from k i p).jobs m ≡ p.jobs m
unfolding reap_from
reap_from-outside zero i m p h = refl
reap_from-outside (suc k) i m p h =
    reap_from-outside k (suc i) m (reap_at i p) still ∙ reap_at_other i m p away
  where
    still : in_range k (suc i) m ≡ false
    still = ground (arith, h)

    away : m ≢ i
    away = ground (arith, h)

pub reap_from-inside :
    (k i m : ℕ) (p : Pool) → in_range k i m ≡ true → (reap_from k i p).jobs m ≡ reaped (p.jobs m)
unfolding reap_from
reap_from-inside zero i m p h = absurd (none_in h)
  where
    none_in : in_range 0 i m ≡ true → ⊥
    none_in h = ground (arith, h)
reap_from-inside (suc k) i m p h = elim (Bool-cases (m == i)) [
  | inl e ↦
      reap_from-outside k (suc i) m (reap_at i p) (out m (==→eq m i e))
      ∙ subst (λ x. (reap_at i p).jobs x ≡ reaped (p.jobs x)) (sym (==→eq m i e)) (reap_at_self i p)
  | inr e ↦
      reap_from-inside k (suc i) m (reap_at i p) (inside (==→ne m i e))
      ∙ ap reaped (reap_at_other i m p (==→ne m i e))
]
  where
    out : (x : ℕ) → x ≡ i → in_range k (suc i) x ≡ false
    out x e = ground arith

    inside : m ≢ i → in_range k (suc i) m ≡ true
    inside n = ground (arith, h)

pub reap-jobs : (p : Pool) (m : ℕ) → m < max_bg_jobs → (cli_jobs_reap p).jobs m ≡ reaped (p.jobs m)
reap-jobs p m h = reap_from-inside max_bg_jobs 0 m p (ground arith)
