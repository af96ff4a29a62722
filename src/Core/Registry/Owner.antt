-- ===== src/Core/Registry/Owner.antt =====
-- The registry is a map from threads to instances.
use stm32f746g_disco.Prelude.{
  ℕ, ◌≡◌, refl, sym, ap, ◌∙◌, subst, ◌≢◌, Bool, true, false, not, ◌&&◌, ◌||◌, Option, none, some,
  List, [], ◌∷◌, ◌==◌, if◌then◌else◌, eq→==, ne→==, ==→eq, ==→ne, some_eq, absurd_bool, some-none,
}
use stm32f746g_disco.Core.Registry.{
  Entry, place, cli_register_thread, vacant, retract, cli_unregister_thread, owner_of,
  cli_current_instance, Lacks, IsRegistry,
}

-- what a registration leaves of a registry
record Placed (t sh : ℕ) (reg r : List Entry) : Type 0 where
  own : owner_of t r ≡ some sh
  others : (u : ℕ) → u ≢ t → owner_of u r ≡ owner_of u reg
  lacks : (u : ℕ) → u ≢ t → Lacks u reg → Lacks u r
  registry : IsRegistry r

abbrev entry : ℕ → ℕ → Entry
entry t sh = record { thread = t; sh = sh }

owner_ne :
    (u : ℕ) (x : Entry) (reg : List Entry) → u ≢ x.thread → owner_of u (x ∷ reg) ≡ owner_of u reg
owner_ne u x reg h = rw (ne→== x.thread u (λ e. h (sym e)))

owner_free :
    (u : ℕ) (x : Entry) (reg : List Entry) → x.sh ≡ 0 → owner_of u (x ∷ reg) ≡ owner_of u reg
owner_free u x reg h = drop_it (x.thread == u)
  where
    drop_it :
        (b : Bool) → (if b && not (x.sh == 0) then some x.sh else owner_of u reg) ≡ owner_of u reg
    drop_it false = refl
    drop_it true = rw (eq→== x.sh 0 h)

Placed-here :
    (t sh : ℕ) (x : Entry) (reg : List Entry)
    → sh ≢ 0
    → x.sh ≡ 0
    → Lacks t (x ∷ reg)
    → IsRegistry (x ∷ reg)
    → Placed t sh (x ∷ reg) (entry t sh ∷ reg)
Placed-here t sh x reg s z l i = record {
  own = rw (eq→== t t refl, ne→== sh 0 s);
  others = λ u h. owner_ne u (entry t sh) reg h ∙ sym (owner_free u x reg z);
  lacks = λ u h k. ((λ e. h (sym e)), k.1);
  registry = ((λ e. absurd (s e)), (λ _. l.1), i.2);
}

Placed-behind :
    (t sh : ℕ) (x : Entry) (reg r : List Entry)
    → Lacks t (x ∷ reg)
    → IsRegistry (x ∷ reg)
    → Placed t sh reg r
    → Placed t sh (x ∷ reg) (x ∷ r)
Placed-behind t sh x reg r l i p = record {
  own = owner_ne t x r (λ e. l.0 (sym e)) ∙ p.own;
  others =
      λ u h. ap (λ o. if x.thread == u && not (x.sh == 0) then some x.sh else o) (p.others u h);
  lacks = λ u h k. (k.0, p.lacks u h k.1);
  registry = (i.0, (λ n. p.lacks x.thread l.0 (i.1 n)), p.registry);
}

place_cons :
    (t sh : ℕ) (x : Entry) (reg r : List Entry)
    → sh ≢ 0
    → Lacks t (x ∷ reg)
    → IsRegistry (x ∷ reg)
    → ((q : List Entry) → place reg (entry t sh) ≡ some q → Placed t sh reg q)
    → (b : Bool) (o : Option (List Entry)) → (x.sh == 0) ≡ b
    → place reg (entry t sh) ≡ o
    → (if b then some (entry t sh ∷ reg) else elim o [ none ↦ none | some q ↦ some (x ∷ q) ])
      ≡ some r
    → Placed t sh (x ∷ reg) r
place_cons t sh x reg r s l i ih true o z p e =
    subst (Placed t sh (x ∷ reg)) (some_eq e) (Placed-here t sh x reg s (==→eq x.sh 0 z) l i)
place_cons t sh x reg r s l i ih false none z p e = absurd (some-none (sym e))
place_cons t sh x reg r s l i ih false (some q) z p e =
    subst (Placed t sh (x ∷ reg)) (some_eq e) (Placed-behind t sh x reg q l i (ih q p))

place-Placed :
    (t sh : ℕ) (reg r : List Entry)
    → sh ≢ 0
    → Lacks t reg
    → IsRegistry reg
    → place reg (entry t sh) ≡ some r
    → Placed t sh reg r
place-Placed t sh [] r s l i e = absurd (some-none (sym e))
place-Placed t sh (x ∷ reg) r s l i e =
    place_cons t sh x reg r s l i (λ q p. place-Placed t sh reg q s l.1 i.2 p) (x.sh == 0)
      (place reg (entry t sh)) refl refl e

registered :
    (t sh : ℕ) (reg r : List Entry)
    → cli_register_thread t sh reg ≡ (true, r)
    → (t ≢ 0) × (sh ≢ 0) × (place reg (entry t sh) ≡ some r)
unfolding cli_register_thread
registered t sh reg r e = answered (t == 0) (sh == 0) (place reg (entry t sh)) refl refl refl e
  where
    answered :
        (a b : Bool) (o : Option (List Entry))
        → (t == 0) ≡ a
        → (sh == 0) ≡ b
        → place reg (entry t sh) ≡ o
        → (if a || b
            then (false, reg)
            else elim o as (λ x. Bool × List Entry) [ none ↦ (false, reg) | some q ↦ (true, q) ])
          ≡ (true, r)
        → (t ≢ 0) × (sh ≢ 0) × (place reg (entry t sh) ≡ some r)
    answered true b o x y z e = absurd_bool (ap (λ p. p.0) e)
    answered false true o x y z e = absurd_bool (ap (λ p. p.0) e)
    answered false false none x y z e = absurd_bool (ap (λ p. p.0) e)
    answered false false (some q) x y z e = (==→ne t 0 x, ==→ne sh 0 y, z ∙ ap (λ p. some p.1) e)

looked_up :
    (u : ℕ) (r reg : List Entry)
    → owner_of u r ≡ owner_of u reg
    → cli_current_instance false u r ≡ cli_current_instance false u reg
unfolding cli_current_instance
looked_up u r reg e = ap (λ o. if u == 0 then none else o) e

-- In a registry where no thread has two entries and a free entry has none: when a thread that has no entry yet
-- is registered, and the registration succeeds, it is owned by its instance, every other thread is owned by whom it was
-- before, and the registry is again of that form.
pub register-current :
    (t sh u : ℕ) (reg r : List Entry)
    → IsRegistry reg
    → Lacks t reg
    → u ≢ t
    → cli_register_thread t sh reg ≡ (true, r)
    → IsRegistry r
      × (cli_current_instance false t r ≡ some sh)
      × (cli_current_instance false u r ≡ cli_current_instance false u reg)
unfolding cli_current_instance
register-current t sh u reg r i l n e =
    (p.registry, rw (ne→== t 0 (registered t sh reg r e).0) p.own, looked_up u r reg (p.others u n))
  where
    p : Placed t sh reg r
    p = place-Placed t sh reg r (registered t sh reg r e).1 l i (registered t sh reg r e).2

unowned :
    (t : ℕ) (reg : List Entry)
    → t ≢ 0
    → owner_of t reg ≡ none
    → cli_current_instance false t reg ≡ none
unfolding cli_current_instance
unowned t reg h e = rw (ne→== t 0 h) e

-- what is left of a registry without a thread
record Retracted (t : ℕ) (reg r : List Entry) : Type 0 where
  lacks : Lacks t r
  others : (u : ℕ) → u ≢ t → owner_of u r ≡ owner_of u reg
  keeps : (u : ℕ) → u ≢ 0 → Lacks u reg → Lacks u r
  registry : IsRegistry r

owner-Lacks : (t : ℕ) (reg : List Entry) → Lacks t reg → owner_of t reg ≡ none
owner-Lacks t [] l = refl
owner-Lacks t (x ∷ reg) l = owner_ne t x reg (λ e. l.0 (sym e)) ∙ owner-Lacks t reg l.1

retract_cons :
    (t : ℕ) (x : Entry) (reg : List Entry)
    → t ≢ 0
    → IsRegistry (x ∷ reg)
    → Retracted t reg (retract t reg)
    → (b : Bool) → (x.thread == t) ≡ b
    → Retracted t (x ∷ reg) (if b then vacant ∷ reg else x ∷ retract t reg)
retract_cons t x reg h i p true e = record {
  lacks = (
    (λ z. h (sym z)),
    subst (λ y. Lacks y reg) (==→eq x.thread t e) (i.1 (λ z. h (sym (==→eq x.thread t e) ∙ z))),
  );
  others = λ u n.
      owner_free u vacant reg refl ∙ sym (owner_ne u x reg (λ z. n (z ∙ ==→eq x.thread t e)));
  keeps = λ u n l. ((λ z. n (sym z)), l.1);
  registry = ((λ _. refl), (λ z. absurd (z refl)), i.2);
}
retract_cons t x reg h i p false e = record {
  lacks = (==→ne x.thread t e, p.lacks);
  others =
      λ u n. ap (λ o. if x.thread == u && not (x.sh == 0) then some x.sh else o) (p.others u n);
  keeps = λ u n l. (l.0, p.keeps u n l.1);
  registry = (i.0, (λ n. p.keeps x.thread n (i.1 n)), p.registry);
}

retract-Retracted :
    (t : ℕ) (reg : List Entry) → t ≢ 0 → IsRegistry reg → Retracted t reg (retract t reg)
retract-Retracted t [] h i = record {
  lacks = tt;
  others = λ _ _. refl;
  keeps = λ _ _ l. l;
  registry = tt;
}
retract-Retracted t (x ∷ reg) h i =
    retract_cons t x reg h i (retract-Retracted t reg h i.2) (x.thread == t) refl

-- A thread that unregisters is owned by nobody and can register again, and every other thread is
-- owned by whom it was before.
pub unregister-current :
    (t u : ℕ) (reg : List Entry)
    → IsRegistry reg
    → t ≢ 0
    → u ≢ t
    → IsRegistry (cli_unregister_thread t reg)
      × Lacks t (cli_unregister_thread t reg)
      × (cli_current_instance false t (cli_unregister_thread t reg) ≡ none)
      × (cli_current_instance false u (cli_unregister_thread t reg)
          ≡ cli_current_instance false u reg)
unfolding cli_unregister_thread
unregister-current t u reg i h n = rw (ne→== t 0 h) (
  p.registry,
  p.lacks,
  unowned t (retract t reg) h (owner-Lacks t (retract t reg) p.lacks),
  looked_up u (retract t reg) reg (p.others u n),
)
  where
    p : Retracted t reg (retract t reg)
    p = retract-Retracted t reg h i
