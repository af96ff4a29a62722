-- ===== src/Pipeline/Protocol.antt =====
-- The runs of the pipeline in which every pin is given back once, by who holds it.
pub mod Steps
pub mod Safety
use stm32f746g_disco.Prelude.{
  ℕ, zero, suc, ◌+◌, ◌-◌, ◌*◌, ◌/◌, ◌%◌, ◌^◌, ◌≤◌, ◌<◌, min, max, bit_and, bit_or, bit_xor, ◌≡◌,
  refl, sym, ap, ap₂, ◌∙◌, subst, ◌≢◌, ◌↔◌, ◌⊎◌, inl, inr, Bool, true, false, not, ◌&&◌, ◌||◌,
  Option, none, some, List, [], ◌∷◌, ◌++◌, map, append_assoc, append-nil, arith, ltb, leb, ◌==◌,
  if◌then◌else◌, eq→==, ne→==, ==_iff, lt→ltb, le→ltb, tests, leb→le, leb→lt, ltb→lt, ltb→le, ==→eq,
  ==→ne, Bool-cases, Option-cases, some_eq, absurd_bool, length, get_elem?, get_or, set, take, drop,
  replicate, length-append, length-set, length-take, length-drop, length-replicate,
  take-append-drop, get_or-set_self, get_or-set_ne, Bytes, codes, bytes_eq, bytes_eq_iff,
}
use stm32f746g_disco.Pipeline.{
  Slot, Sink, Format, Pipeline, update, on_slot, on_sink, ref_up, ref_down, pin_up, pin_down,
  unpin_locked, set_pending, set_busy, is_free, is_latest, find_free, claim, next_delivery,
  drop_pending, unlink, Frame, stamp, frame_pipeline_init, frame_pipeline_set_format,
  frame_pipeline_acquire, frame_pipeline_publish, consumed, attach_locked, frame_pipeline_attach,
  frame_pipeline_detach, frame_pipeline_get, frame_pipeline_put, frame_pipeline_pin_latest,
}
use stm32f746g_disco.Pipeline.Pins.{
  Pin, delivered, queued, pulled, slot_of, owned_by, one_if, pinned, owned, Has, remove,
}
use stm32f746g_disco.Pipeline.Pins.Count.{pinned-remove, owned-remove, Has-remove, not_held}
use stm32f746g_disco.Pipeline.Invariant.{
  Refs, Owns, Pends, Quiet, IsExact, at_update, Refs-up, Refs-down, Owns-up, Owns-down, Owns-pulled,
  Owns-pulled_back, Pends-cons, Pends-remove, Owns-on_sink, Pends-on_sink, Quiet-up, Quiet-down,
  filling-ref_up, filling-ref_down,
}
use stm32f746g_disco.Pipeline.FanOut.{without, pins_after, publish-IsExact}

-- the pins behind a `put` of a sink, whose pending frame is then delivered
abbrev pub handed_on : ℕ → Option ℕ → List Pin → List Pin
handed_on k none held = held
handed_on k (some g) held = delivered k g ∷ remove (queued k g) held

abbrev pub pulled_latest : Option ℕ → List Pin → List Pin
pulled_latest none held = held
pulled_latest (some i) held = pulled i ∷ held

-- A step of the producer, of a sink, or of a reader.
pub data Step : Pipeline → List Pin → Pipeline → List Pin → Type 0 where
  set_format :
      (p : Pipeline) (held : List Pin) (fmt : Format) (w h : ℕ)
      → Step p held (frame_pipeline_set_format fmt w h p) held
  acquire : (p : Pipeline) (held : List Pin) → Step p held (frame_pipeline_acquire p).0 held
  publish :
      (p : Pipeline) (held : List Pin) (f : ℕ) (a : Frame)
      → (p.slots f).filling ≡ true
      → Step p held (frame_pipeline_publish f a p).0 (pins_after p.attached f (stamp f a p) held)
  count :
      (p : Pipeline) (held : List Pin) (k : ℕ) (failed : Bool)
      → Step p held (consumed k failed p) held
  -- a sink attaches that is not in the list, with nothing left from an earlier time
  attach :
      (p : Pipeline) (held : List Pin) (k : ℕ)
      → unlink k p.attached ≡ p.attached
      → owned k held ≡ 0
      → Step p held (attach_locked k p) held
  detach :
      (p : Pipeline) (held : List Pin) (k : ℕ)
      → Step p held (frame_pipeline_detach k p).0 (without k (p.sinks k).pending held)
  -- a sink that has a frame takes one more pin on it
  get :
      (p : Pipeline) (held : List Pin) (k f : ℕ)
      → Has (delivered k f) held
      → Step p held (frame_pipeline_get (some k) f p) (delivered k f ∷ held)
  put :
      (p : Pipeline) (held : List Pin) (k f : ℕ)
      → Has (delivered k f) held
      → Step p held
          (frame_pipeline_put (some k) f p).0
          (handed_on k (p.sinks k).pending (remove (delivered k f) held))
  pin_latest :
      (p : Pipeline) (held : List Pin)
      → Step p held (frame_pipeline_pin_latest p).0 (pulled_latest p.latest held)
  put_pulled :
      (p : Pipeline) (held : List Pin) (f : ℕ)
      → Has (pulled f) held
      → Step p held (frame_pipeline_put none f p).0 (remove (pulled f) held)

-- `find_free` gives a free slot.
pub find_free-is_free :
    (k i : ℕ) (p : Pipeline) {r : ℕ} → find_free k i p ≡ some r → is_free p r ≡ true
unfolding find_free
find_free-is_free zero i p e = cc
find_free-is_free (suc k) i p {r} e = elim (Bool-cases (is_free p i)) [
  | inl h ↦ subst (λ x. is_free p x ≡ true) (some_eq (rw (h, find_free) at e)) h
  | inr h ↦ find_free-is_free k (suc i) p (rw (h, find_free) at e)
]
