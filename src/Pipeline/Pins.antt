-- ===== src/Pipeline/Pins.antt =====
-- Who holds which frame: a list of outstanding pins beside the pipeline, and the counts of the code
-- against it.
pub mod Count
use stm32f746g_disco.Prelude.{
  ℕ, zero, suc, ◌+◌, ◌-◌, ◌*◌, ◌/◌, ◌%◌, ◌^◌, ◌≤◌, ◌<◌, min, max, bit_and, bit_or, bit_xor, ◌≡◌,
  refl, sym, ap, ap₂, ◌∙◌, subst, ◌≢◌, ◌↔◌, ◌⊎◌, inl, inr, Bool, true, false, not, ◌&&◌, ◌||◌,
  Option, none, some, List, [], ◌∷◌, ◌++◌, map, append_assoc, append-nil, arith, ltb, leb, ◌==◌,
  if◌then◌else◌, eq→==, ne→==, ==_iff, lt→ltb, le→ltb, tests, leb→le, leb→lt, ltb→lt, ltb→le, ==→eq,
  ==→ne, Bool-cases, Option-cases, some_eq, length, get_elem?, get_or, set, take, drop, replicate,
  length-append, length-set, length-take, length-drop, length-replicate, take-append-drop,
  get_or-set_self, get_or-set_ne, Bytes, codes, bytes_eq, bytes_eq_iff,
}
use stm32f746g_disco.Pipeline.{Slot, Sink, Pipeline, update, less_one}

-- A pin that a sink got by a delivery or by `get`, one of a frame that is queued for a sink, or one
-- of a reader without a sink.
pub data Pin : Type 0 where
  delivered : ℕ → ℕ → Pin
  queued : ℕ → ℕ → Pin
  pulled : ℕ → Pin

abbrev pub slot_of : Pin → ℕ
slot_of (delivered k f) = f
slot_of (queued k f) = f
slot_of (pulled f) = f

abbrev pub owned_by : ℕ → Pin → Bool
owned_by j (delivered k f) = k == j
owned_by j (queued k f) = k == j
owned_by j (pulled f) = false

abbrev pub pin_eq : Pin → Pin → Bool
pin_eq (delivered k f) (delivered j g) = k == j && f == g
pin_eq (queued k f) (queued j g) = k == j && f == g
pin_eq (pulled f) (pulled g) = f == g
pin_eq _ _ = false

abbrev pub one_if : Bool → ℕ
one_if b = if b then 1 else 0

-- how many pins a slot has, and a sink
unfoldable pub pinned : ℕ → List Pin → ℕ
pinned i [] = 0
pinned i (q ∷ held) = one_if (slot_of q == i) + pinned i held

unfoldable pub owned : ℕ → List Pin → ℕ
owned k [] = 0
owned k (q ∷ held) = one_if (owned_by k q) + owned k held

abbrev pub Has : Pin → List Pin → Type 0
Has q [] = ⊥
Has q (x ∷ held) = (x ≡ q) ⊎ Has q held

unfoldable pub remove : Pin → List Pin → List Pin
remove q [] = []
remove q (x ∷ held) = if pin_eq x q then held else x ∷ remove q held
