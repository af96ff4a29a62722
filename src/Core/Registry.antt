-- ===== src/Core/Registry.antt =====
-- `cli_thread_reg` of shell/core/cli_core.c: which shell instance owns which thread. Threads and
-- instances are addresses, 0 for NULL.
pub mod Owner
pub mod Room
use stm32f746g_disco.Prelude.{
  ℕ, zero, suc, ◌+◌, ◌-◌, ◌*◌, ◌/◌, ◌%◌, ◌^◌, ◌≤◌, ◌<◌, min, max, bit_and, bit_or, bit_xor, ◌≡◌,
  refl, sym, ap, ap₂, ◌∙◌, subst, ◌≢◌, ◌↔◌, ◌⊎◌, inl, inr, Bool, true, false, not, ◌&&◌, ◌||◌,
  Option, none, some, List, [], ◌∷◌, ◌++◌, map, append_assoc, append-nil, arith, ltb, leb, ◌==◌,
  if◌then◌else◌, eq→==, ne→==, ==_iff, lt→ltb, le→ltb, tests, leb→le, leb→lt, ltb→lt, ltb→le, ==→eq,
  ==→ne, Bool-cases, Option-cases, some_eq, absurd_bool, some-none, length, get_elem?, get_or, set,
  take, drop, replicate, length-append, length-set, length-take, length-drop, length-replicate,
  take-append-drop, get_or-set_self, get_or-set_ne, Bytes, codes, bytes_eq, bytes_eq_iff,
}

-- `struct cli_thread_map`
pub record Entry : Type 0 where
  pub thread : ℕ
  pub sh : ℕ

-- the registry with the entry in its first free slot, if there is one
abbrev pub place : List Entry → Entry → Option (List Entry)
place [] e = none
place (x ∷ reg) e =
    let rest = place reg e in
    if x.sh == 0 then some (e ∷ reg) else elim rest [ none ↦ none | some r ↦ some (x ∷ r) ]

-- `true` is the 0 that it returns, `false` the -1
unfoldable pub cli_register_thread : ℕ → ℕ → List Entry → Bool × List Entry
cli_register_thread t sh reg =
    if t == 0 || sh == 0 then (false, reg) else elim (place reg (record { thread = t; sh = sh })) [
      | none ↦ (false, reg)
      | some r ↦ (true, r)
    ]

abbrev pub vacant : Entry
vacant = record { thread = 0; sh = 0 }

abbrev pub retract : ℕ → List Entry → List Entry
retract t [] = []
retract t (x ∷ reg) = let rest = retract t reg in if x.thread == t then vacant ∷ reg else x ∷ rest

unfoldable pub cli_unregister_thread : ℕ → List Entry → List Entry
cli_unregister_thread t reg = if t == 0 then reg else retract t reg

abbrev pub owner_of : ℕ → List Entry → Option ℕ
owner_of t [] = none
owner_of t (x ∷ reg) =
    let rest = owner_of t reg in if x.thread == t && not (x.sh == 0) then some x.sh else rest

-- `cli_current_instance` for the context it runs in: whether that is an exception, and the thread
-- that ThreadX names
pub cli_current_instance : Bool → ℕ → List Entry → Option ℕ
cli_current_instance in_isr t reg =
    if in_isr then none else (if t == 0 then none else owner_of t reg)

-- No two entries have the same thread, and a free one has none.
abbrev pub Lacks : ℕ → List Entry → Type 0
Lacks t [] = Unit {0}
Lacks t (x ∷ reg) = (x.thread ≢ t) × Lacks t reg

abbrev pub IsRegistry : List Entry → Type 0
IsRegistry [] = Unit {0}
IsRegistry (x ∷ reg) =
    ((x.sh ≡ 0) → x.thread ≡ 0) × ((x.thread ≢ 0) → Lacks x.thread reg) × IsRegistry reg
