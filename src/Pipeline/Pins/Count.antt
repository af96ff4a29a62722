-- ===== src/Pipeline/Pins/Count.antt =====
-- The counts of pins when one is added or given back.
use stm32f746g_disco.Prelude.{
  ℕ, ◌+◌, ◌≡◌, refl, sym, ap, ◌∙◌, subst, ◌≢◌, ◌↔◌, inl, inr, true, List, [], ◌∷◌, arith, ◌==◌,
  eq→==, Bool-cases,
}
use stm32f746g_disco.Pipeline.Pins.{
  Pin, delivered, queued, pulled, slot_of, owned_by, pin_eq, one_if, pinned, owned, Has, remove,
}

pin_eq_iff : (p q : Pin) → (pin_eq p q ≡ true) ↔ (p ≡ q)
pin_eq_iff (delivered k f) (delivered j g) = ground arith
pin_eq_iff (queued k f) (queued j g) = ground arith
pin_eq_iff (pulled f) (pulled g) = ground arith
pin_eq_iff (delivered k f) (queued j g) = ground arith
pin_eq_iff (delivered k f) (pulled g) = ground arith
pin_eq_iff (queued k f) (delivered j g) = ground arith
pin_eq_iff (queued k f) (pulled g) = ground arith
pin_eq_iff (pulled f) (delivered j g) = ground arith
pin_eq_iff (pulled f) (queued j g) = ground arith

pub pinned-remove :
    (q : Pin) (held : List Pin) (i : ℕ)
    → Has q held
    → pinned i held ≡ one_if (slot_of q == i) + pinned i (remove q held)
unfolding pinned remove
pinned-remove q [] i h = absurd h
pinned-remove q (x ∷ held) i (inl e) = rw (e, (pin_eq_iff q q).1 refl)
pinned-remove q (x ∷ held) i (inr h) = elim (Bool-cases (pin_eq x q)) [
  | inl e ↦ rw e (ap (λ y. one_if (slot_of y == i) + pinned i held) ((pin_eq_iff x q).0 e))
  | inr e ↦ rw e (omega (arith, pinned-remove q held i h))
]

pub owned-remove :
    (q : Pin) (held : List Pin) (k : ℕ)
    → Has q held
    → owned k held ≡ one_if (owned_by k q) + owned k (remove q held)
unfolding owned remove
owned-remove q [] k h = absurd h
owned-remove q (x ∷ held) k (inl e) = rw (e, (pin_eq_iff q q).1 refl)
owned-remove q (x ∷ held) k (inr h) = elim (Bool-cases (pin_eq x q)) [
  | inl e ↦ rw e (ap (λ y. one_if (owned_by k y) + owned k held) ((pin_eq_iff x q).0 e))
  | inr e ↦ rw e (omega (arith, owned-remove q held k h))
]

pub Has-remove : (q r : Pin) (held : List Pin) → r ≢ q → Has r held → Has r (remove q held)
unfolding remove
Has-remove q r [] ne h = absurd h
Has-remove q r (x ∷ held) ne (inl e) = elim (Bool-cases (pin_eq x q)) [
  | inl k ↦ absurd (ne (sym e ∙ (pin_eq_iff x q).0 k))
  | inr k ↦ rw k (inl e)
]
Has-remove q r (x ∷ held) ne (inr h) = elim (Bool-cases (pin_eq x q)) [
  | inl k ↦ rw k h
  | inr k ↦ rw k (inr (Has-remove q r held ne h))
]

-- A slot with no pin is held by nobody.
pub not_held : (q : Pin) (held : List Pin) → pinned (slot_of q) held ≡ 0 → ¬ Has q held
unfolding pinned
not_held q [] z h = h
not_held q (x ∷ held) z (inl e) =
    let at_q : one_if (slot_of q == slot_of q) + pinned (slot_of q) held ≡ 0 =
      subst (λ y. one_if (slot_of y == slot_of q) + pinned (slot_of q) held ≡ 0) e z in
    let one : 1 + pinned (slot_of q) held ≡ 0 = rw (eq→== (slot_of q) (slot_of q) refl) at at_q in
    absurd (omega arith)
not_held q (x ∷ held) z (inr h) = not_held q held (omega (arith, z)) h
