-- ===== src/Pipeline/Protocol/Safety.antt =====
-- What the exact counts give: no slot is written while someone has its frame.
use stm32f746g_disco.Prelude.{
  ℕ, zero, suc, ◌+◌, ◌%◌, ◌^◌, Bool, if◌then◌else◌, ◌-◌, ◌≤◌, ◌<◌, ◌≡◌, refl, sym, ◌∙◌, subst, ◌≢◌,
  inl, inr, true, false, ◌&&◌, ◌||◌, none, some, List, [], arith, ltb, leb, ◌==◌, ==→eq, ==→ne,
  Bool-cases, some_eq,
}
use stm32f746g_disco.Pipeline.{
  frame_pipeline_read_latest, max_slots, Slot, Sink, Pipeline, is_free, find_free,
  frame_pipeline_init, frame_pipeline_acquire,
}
use stm32f746g_disco.Pipeline.Pins.{Pin, slot_of, pinned, owned, Has}
use stm32f746g_disco.Pipeline.Invariant.{IsExact}
use stm32f746g_disco.Pipeline.Protocol.{Step, find_free-is_free}
use stm32f746g_disco.Pipeline.Protocol.Steps.{Step-IsExact, not_filling, free_parts, free_latest}

-- A run of the protocol.
pub data Run : Pipeline → List Pin → Pipeline → List Pin → Type 0 where
  start : (p : Pipeline) (held : List Pin) → Run p held p held
  then_step :
      {p q r : Pipeline} {held held' held'' : List Pin}
      → Run p held q held'
      → Step q held' r held''
      → Run p held r held''

-- Sinks that nobody used yet.
abbrev pub Unused : (ℕ → Sink) → Type 0
Unused sinks = (k : ℕ) → ((sinks k).pins ≡ 0) × ((sinks k).pending ≡ none)

pub init-IsExact :
    (mem size n : ℕ) (sinks : ℕ → Sink) {p : Pipeline}
    → Unused sinks
    → frame_pipeline_init mem size n sinks ≡ some p
    → IsExact p []
unfolding frame_pipeline_init pinned owned
init-IsExact mem size n sinks unused e =
    elim (Bool-cases (mem == 0 || size == 0 || n == 0 || ltb max_slots n)) [
      | inl b ↦ cc (rw b at e)
      | inr b ↦
          subst (λ x. IsExact x []) (some_eq (rw b at e))
            (record {
              refs = λ i. refl;
              owns = λ k. (unused k).0;
              pends = λ k g a. cc (unused k).1;
              quiet = λ i a. cc;
            })
    ]

-- After every run from a new pipeline the reference count of each slot is the number of pins on it,
-- the pin count of each sink is the number of its pins, a pending frame has its pin, and a slot that
-- is being filled has no pin and is not the latest frame.
pub Run-IsExact :
    (mem size n : ℕ) (sinks : ℕ → Sink) {p q : Pipeline} {held : List Pin}
    → Unused sinks
    → frame_pipeline_init mem size n sinks ≡ some p
    → Run p [] q held
    → IsExact q held
Run-IsExact mem size n sinks unused e (start _ _) = init-IsExact mem size n sinks unused e
Run-IsExact mem size n sinks unused e (then_step r s) =
    Step-IsExact s (Run-IsExact mem size n sinks unused e r)

free_filling : (p : Pipeline) (i : ℕ) → is_free p i ≡ true → (p.slots i).filling ≡ false
free_filling p i e = ground arith

find_free-none :
    (k i : ℕ) (p : Pipeline) (j : ℕ)
    → find_free k i p ≡ none
    → i ≤ j
    → j < i + k
    → is_free p j ≡ false
unfolding find_free
find_free-none zero i p j e h h' = absurd (omega (arith, h, h'))
find_free-none (suc k) i p j e h h' = elim (Bool-cases (is_free p i)) [
  | inl f ↦ cc (rw (f, find_free) at e)
  | inr f ↦ elim (Bool-cases (j == i)) [
    | inl b ↦ rw (==→eq j i b) f
    | inr b ↦
        find_free-none k (suc i) p j (rw (f, find_free) at e) (omega (arith, h, ==→ne j i b))
          (omega (arith, h'))
  ]
]

find_free-bounded : (k i : ℕ) (p : Pipeline) {r : ℕ} → find_free k i p ≡ some r → r < i + k
unfolding find_free
find_free-bounded zero i p e = cc
find_free-bounded (suc k) i p {r} e = elim (Bool-cases (is_free p i)) [
  | inl h ↦ omega (arith, some_eq (rw (h, find_free) at e))
  | inr h ↦ omega (arith, find_free-bounded k (suc i) p (rw (h, find_free) at e))
]

-- The slot that a producer acquires, after any run, has no pin, is not the latest frame, and no
-- earlier producer is filling it; it is one of the pipeline's slots.
pub acquired-is_unshared :
    (mem size n : ℕ) (sinks : ℕ → Sink) {p q : Pipeline} {held : List Pin} {f : ℕ}
    → Unused sinks
    → frame_pipeline_init mem size n sinks ≡ some p
    → Run p [] q held
    → (frame_pipeline_acquire q).1 ≡ some f
    → (pinned f held ≡ 0) × ((q.latest ≢ some f) × (((q.slots f).filling ≡ false) × (f < q.nslots)))
unfolding frame_pipeline_acquire
acquired-is_unshared mem size n sinks {p} {q} {held} {f} unused e r a =
    let free : is_free q f ≡ true = find_free-is_free q.nslots 0 q a in
    let x = Run-IsExact mem size n sinks unused e r in
    (
      sym (x.refs f) ∙ (free_parts q f free).0,
      (
        free_latest q.latest f (free_parts q f free).1,
        (free_filling q f free, omega (arith, find_free-bounded q.nslots 0 q a)),
      ),
    )

-- After any run, while a sink or a reader has a pin, the slot of its frame is not being filled.
pub pinned-is_stable :
    (mem size n : ℕ) (sinks : ℕ → Sink) {p q : Pipeline} {held : List Pin}
    → Unused sinks
    → frame_pipeline_init mem size n sinks ≡ some p
    → Run p [] q held
    → (pin : Pin) → Has pin held
    → (q.slots (slot_of pin)).filling ≡ false
pinned-is_stable mem size n sinks {p} {q} {held} unused e r pin m =
    not_filling q held pin (Run-IsExact mem size n sinks unused e r) m

-- `frame_pipeline_acquire` fails only when no slot is free: each one is being filled, is referred
-- to, or is the latest.
pub acquire-fails_when_full :
    (p : Pipeline) (i : ℕ)
    → (frame_pipeline_acquire p).1 ≡ none
    → i < p.nslots
    → is_free p i ≡ false
unfolding frame_pipeline_acquire
acquire-fails_when_full p i e h = find_free-none p.nslots 0 p i e (omega arith) (omega (arith, h))

-- The request is for bytes of the frame, without a wrap at 32 bits.
abbrev pub asks_within : Slot → ℕ → ℕ → Bool
asks_within s off len = ltb 0 len && leb (off + len) s.bytes

guards_agree :
    (off len bytes : ℕ)
    → bytes < 2 ^ 32
    → (len == 0) ≡ false
    → (ltb off bytes && leb len ((bytes + 2 ^ 32 - off) % 2 ^ 32))
      ≡ (ltb 0 len && leb (off + len) bytes)
guards_agree off len bytes h z = ground arith

nothing_asked :
    (off len bytes : ℕ) → (len == 0) ≡ true → (ltb 0 len && leb (off + len) bytes) ≡ false
nothing_asked off len bytes z = ground arith

-- With a latest frame of less than 2^32 bytes, `frame_pipeline_read_latest` copies from it the `len`
-- bytes at `off` if these are some bytes, all within the frame, and fails otherwise, whatever `off` and `len` are.
pub read_latest-in_bounds :
    (off len i : ℕ) (p : Pipeline)
    → p.latest ≡ some i
    → (p.slots i).bytes < 2 ^ 32
    → frame_pipeline_read_latest off len p ≡ (
        if asks_within (p.slots i) off len
        then some (record { from = (p.slots i).address + off; len = len; gen = (p.slots i).gen })
        else none)
unfolding frame_pipeline_read_latest
read_latest-in_bounds off len i p l h = elim (Bool-cases (len == 0)) [
  | inl z ↦ rw (z, nothing_asked off len (p.slots i).bytes z) refl
  | inr z ↦ rw (z, l) (rw (guards_agree off len (p.slots i).bytes h z) refl)
]
