-- ===== src/Pipeline/Invariant.antt =====
-- The reference counts are exact: each slot counts the pins on it, each sink the pins it has.
use stm32f746g_disco.Prelude.{
  ℕ, ◌+◌, ◌≡◌, refl, sym, ap, ◌∙◌, subst, ◌≢◌, inl, inr, true, false, some, List, ◌∷◌, arith, ◌==◌,
  eq→==, ne→==, ==→eq, ==→ne, Bool-cases,
}
use stm32f746g_disco.Pipeline.{
  Sink, Pipeline, less_one, on_sink, ref_up, ref_down, pin_up, pin_down,
}
use stm32f746g_disco.Pipeline.Pins.{
  Pin, queued, pulled, slot_of, owned_by, pinned, owned, Has, remove,
}
use stm32f746g_disco.Pipeline.Pins.Count.{pinned-remove, owned-remove, Has-remove}

abbrev pub Refs : Pipeline → List Pin → Type 0
Refs p held = (i : ℕ) → (p.slots i).refcount ≡ pinned i held

abbrev pub Owns : Pipeline → List Pin → Type 0
Owns p held = (k : ℕ) → (p.sinks k).pins ≡ owned k held

-- A frame that is pending for a sink has its pin.
abbrev pub Pends : Pipeline → List Pin → Type 0
Pends p held = (k g : ℕ) → (p.sinks k).pending ≡ some g → Has (queued k g) held

-- The slot that is being filled has no pin, and is not the latest.
abbrev pub Quiet : Pipeline → List Pin → Type 0
Quiet p held = (i : ℕ) → (p.slots i).filling ≡ true → (pinned i held ≡ 0) × (p.latest ≢ some i)

pub record IsExact (p : Pipeline) (held : List Pin) : Type 0 where
  pub refs : Refs p held
  pub owns : Owns p held
  pub pends : Pends p held
  pub quiet : Quiet p held

-- To prove a fact of every index, prove it where an update is made and elsewhere.
pub at_update :
    (P : ℕ → Type 0) (f i : ℕ)
    → ((f == f) ≡ true → P f)
    → ((i == f) ≡ false → (f == i) ≡ false → P i)
    → P i
at_update P f i here there = elim (Bool-cases (i == f)) [
  | inl e ↦ subst P (sym (==→eq i f e)) (here (eq→== f f refl))
  | inr e ↦ there e (ne→== f i (λ k. ==→ne i f e (sym k)))
]

less_one_lem : (n m : ℕ) → n ≡ 1 + m → less_one n ≡ m
less_one_lem n m h = ground arith

pub Refs-up :
    (p : Pipeline) (held : List Pin) (q : Pin)
    → Refs p held
    → Refs (ref_up (slot_of q) p) (q ∷ held)
unfolding pinned
Refs-up p held q h i =
    at_update (λ x. ((ref_up (slot_of q) p).slots x).refcount ≡ pinned x (q ∷ held)) (slot_of q) i
      (λ e. rw e (omega (arith, h (slot_of q)))) (λ e e'. rw (e, e') (omega (arith, h i)))

pub Refs-down :
    (p : Pipeline) (held : List Pin) (q : Pin)
    → Has q held
    → Refs p held
    → Refs (ref_down (slot_of q) p) (remove q held)
Refs-down p held q m h i =
    at_update (λ x. ((ref_down (slot_of q) p).slots x).refcount ≡ pinned x (remove q held))
      (slot_of q) i
      (λ e. rw e (
        less_one_lem (p.slots (slot_of q)).refcount (pinned (slot_of q) (remove q held))
          (h (slot_of q) ∙ (rw e at (pinned-remove q held (slot_of q) m)))))
      (λ e e'. rw e (h i ∙ (rw e' at (pinned-remove q held i m)) ∙ omega arith))

pub Owns-up :
    (p : Pipeline) (held : List Pin) (k : ℕ) (q : Pin)
    → ((j : ℕ) → owned_by j q ≡ (k == j))
    → Owns p held
    → Owns (pin_up k p) (q ∷ held)
unfolding owned
Owns-up p held k q o h j =
    at_update (λ x. ((pin_up k p).sinks x).pins ≡ owned x (q ∷ held)) k j
      (λ e. rw (e, o k) (rw e (omega (arith, h k))))
      (λ e e'. rw (e, o j) (rw e' (omega (arith, h j))))

pub Owns-down :
    (p : Pipeline) (held : List Pin) (k : ℕ) (q : Pin)
    → ((j : ℕ) → owned_by j q ≡ (k == j))
    → Has q held
    → Owns p held
    → Owns (pin_down k p) (remove q held)
Owns-down p held k q o m h j =
    at_update (λ x. ((pin_down k p).sinks x).pins ≡ owned x (remove q held)) k j
      (λ e. rw e (
        less_one_lem (p.sinks k).pins (owned k (remove q held))
          (h k ∙ (rw (o k, e) at (owned-remove q held k m)))))
      (λ e e'. rw e (h j ∙ (rw (o j, e') at (owned-remove q held j m)) ∙ omega arith))

-- A pin that no sink owns changes no sink's count.
pub Owns-pulled : (p : Pipeline) (held : List Pin) (f : ℕ) → Owns p held → Owns p (pulled f ∷ held)
unfolding owned
Owns-pulled p held f h k = omega (arith, h k)

pub Owns-pulled_back :
    (p : Pipeline) (held : List Pin) (f : ℕ)
    → Has (pulled f) held
    → Owns p held
    → Owns p (remove (pulled f) held)
Owns-pulled_back p held f m h k = omega (arith, h k, owned-remove (pulled f) held k m)

-- More pins keep what is pending.
pub Pends-cons : (p : Pipeline) (held : List Pin) (q : Pin) → Pends p held → Pends p (q ∷ held)
Pends-cons p held q h k g e = inr (h k g e)

-- Giving back a pin of another kind keeps what is pending.
pub Pends-remove :
    (p : Pipeline) (held : List Pin) (q : Pin)
    → ((k g : ℕ) → (p.sinks k).pending ≡ some g → queued k g ≢ q)
    → Pends p held
    → Pends p (remove q held)
Pends-remove p held q ne h k g e = Has-remove q (queued k g) held (ne k g e) (h k g e)

-- An update of a sink that leaves its count.
pub Owns-on_sink :
    (p : Pipeline) (held : List Pin) (k : ℕ) (s : Sink)
    → s.pins ≡ (p.sinks k).pins
    → Owns p held
    → Owns (on_sink p k s) held
Owns-on_sink p held k s e h j =
    at_update (λ x. ((on_sink p k s).sinks x).pins ≡ owned x held) k j (λ a. rw a (e ∙ h k))
      (λ a a'. rw a (h j))

-- An update of a sink that leaves what is pending for it, or sets it to a frame with its pin.
pub Pends-on_sink :
    (p : Pipeline) (held : List Pin) (k : ℕ) (s : Sink)
    → ((g : ℕ) → s.pending ≡ some g → Has (queued k g) held)
    → ((j g : ℕ) → j ≢ k → (p.sinks j).pending ≡ some g → Has (queued j g) held)
    → Pends (on_sink p k s) held
Pends-on_sink p held k s here there j =
    at_update (λ x. (g : ℕ) → ((on_sink p k s).sinks x).pending ≡ some g → Has (queued x g) held) k
      j (λ a g e. here g (rw a at e)) (λ a a' g e. there j g (==→ne j k a) (rw a at e))

pub filling-ref_up : (p : Pipeline) (f i : ℕ) → ((ref_up f p).slots i).filling ≡ (p.slots i).filling
filling-ref_up p f i =
    at_update (λ x. ((ref_up f p).slots x).filling ≡ (p.slots x).filling) f i (λ a. rw a refl)
      (λ a a'. rw a refl)

pub filling-ref_down :
    (p : Pipeline) (f i : ℕ) → ((ref_down f p).slots i).filling ≡ (p.slots i).filling
filling-ref_down p f i =
    at_update (λ x. ((ref_down f p).slots x).filling ≡ (p.slots x).filling) f i (λ a. rw a refl)
      (λ a a'. rw a refl)

-- A new pin is on a slot that is not being filled.
pub Quiet-up :
    (p : Pipeline) (held : List Pin) (q : Pin)
    → (p.slots (slot_of q)).filling ≡ false
    → Quiet p held
    → Quiet (ref_up (slot_of q) p) (q ∷ held)
unfolding pinned
Quiet-up p held q live h i e =
    let filled : (p.slots i).filling ≡ true = sym (filling-ref_up p (slot_of q) i) ∙ e in
    (
      rw (ne→== (slot_of q) i (λ k. cc (ap (λ x. (p.slots x).filling) k)))
          (omega (arith, (h i filled).0)),
      (h i filled).1,
    )

pub Quiet-down :
    (p : Pipeline) (held : List Pin) (q : Pin)
    → Has q held
    → Quiet p held
    → Quiet (ref_down (slot_of q) p) (remove q held)
Quiet-down p held q m h i e =
    let filled : (p.slots i).filling ≡ true = sym (filling-ref_down p (slot_of q) i) ∙ e in
    (omega (arith, (h i filled).0, pinned-remove q held i m), (h i filled).1)
