-- ===== src/Core/Registry/Room.antt =====
-- When the registry takes a thread.
use stm32f746g_disco.Prelude.{
  ℕ, ◌≡◌, refl, ◌≢◌, Bool, true, false, ◌||◌, none, some, List, [], ◌∷◌, ◌==◌, if◌then◌else◌, ne→==,
  absurd_bool,
}
use stm32f746g_disco.Core.Registry.{
  Entry, place, cli_register_thread, cli_unregister_thread, vacant, retract,
}

-- The registry has a free slot.
abbrev pub has_room : List Entry → Bool
has_room [] = false
has_room (x ∷ reg) = x.sh == 0 || has_room reg

place_room :
    (reg : List Entry) (e : Entry) → has_room reg ≡ true → (r : List Entry) × (place reg e ≡ some r)
place_room [] e h = absurd_bool h
place_room (x ∷ reg) e h = pick (x.sh == 0) (place_room reg e) h
  where
    pick :
        (b : Bool)
        → (has_room reg ≡ true → (r : List Entry) × (place reg e ≡ some r))
        → (b || has_room reg) ≡ true
        → (r : List Entry) × ((if b
              then some (e ∷ reg)
              else elim (place reg e) [ none ↦ none | some q ↦ some (x ∷ q) ])
            ≡ some r)
    pick true ih h = (e ∷ reg, refl)
    pick false ih h = (x ∷ (ih h).0, rw (ih h).1 refl)

-- A registry with a free slot takes a thread.
pub register_room :
    (t sh : ℕ) (reg : List Entry)
    → t ≢ 0
    → sh ≢ 0
    → has_room reg ≡ true
    → (cli_register_thread t sh reg).0 ≡ true
unfolding cli_register_thread
register_room t sh reg a b h =
    rw (ne→== t 0 a, ne→== sh 0 b) (rw (place_room reg (record { thread = t; sh = sh }) h).1 refl)

retract_room : (t : ℕ) (reg : List Entry) → has_room reg ≡ true → has_room (retract t reg) ≡ true
retract_room t [] h = h
retract_room t (x ∷ reg) h =
    pick (x.thread == t)
      (or_else (x.sh == 0) (has_room reg) (has_room (retract t reg)) (retract_room t reg) h)
  where
    or_else : (f a b : Bool) → (a ≡ true → b ≡ true) → (f || a) ≡ true → (f || b) ≡ true
    or_else true a b ih h = refl
    or_else false a b ih h = ih h

    pick :
        (b : Bool)
        → has_room (x ∷ retract t reg) ≡ true
        → has_room (if b then vacant ∷ reg else x ∷ retract t reg) ≡ true
    pick true k = refl
    pick false k = k

-- A registry with a free slot still has one when a thread unregisters.
pub unregister-has_room :
    (t : ℕ) (reg : List Entry) → has_room reg ≡ true → has_room (cli_unregister_thread t reg) ≡ true
unfolding cli_unregister_thread
unregister-has_room t reg h = pick (t == 0)
  where
    pick : (b : Bool) → has_room (if b then reg else retract t reg) ≡ true
    pick true = h
    pick false = retract_room t reg h
