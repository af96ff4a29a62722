-- ===== src/Pipeline/Protocol/Steps.antt =====
-- Each step of the protocol keeps the counts exact.
use stm32f746g_disco.Prelude.{
  ℕ, ◌≡◌, refl, sym, ◌∙◌, ◌≢◌, inl, inr, true, false, Option, none, some, List, ◌∷◌, arith, eq→==,
  ne→==, ==→ne, Bool-cases, some_eq,
}
use stm32f746g_disco.Pipeline.{
  Sink, Pipeline, on_sink, ref_up, ref_down, unpin_locked, is_free, is_latest, pin_slot, claim,
  next_delivery, drop_pending, frame_pipeline_set_format, frame_pipeline_acquire, consumed,
  attach_locked, frame_pipeline_detach, frame_pipeline_get, frame_pipeline_put,
  frame_pipeline_pin_latest,
}
use stm32f746g_disco.Pipeline.Pins.{
  Pin, delivered, queued, pulled, slot_of, pinned, owned, Has, remove,
}
use stm32f746g_disco.Pipeline.Pins.Count.{pinned-remove, owned-remove, Has-remove, not_held}
use stm32f746g_disco.Pipeline.Invariant.{
  IsExact, at_update, Refs-up, Refs-down, Owns-up, Owns-down, Owns-pulled, Owns-pulled_back,
  Pends-cons, Pends-remove, Owns-on_sink, Pends-on_sink, Quiet-up, Quiet-down,
}
use stm32f746g_disco.Pipeline.FanOut.{without, publish-IsExact}
use stm32f746g_disco.Pipeline.Protocol.{
  handed_on, pulled_latest, Step, set_format, acquire, publish, count, attach, detach, get, put,
  pin_latest, put_pulled, find_free-is_free,
}

pub free_latest : (o : Option ℕ) (i : ℕ) → is_latest o i ≡ false → o ≢ some i
free_latest none i e k = cc
free_latest (some j) i e k = ==→ne i j e (sym (some_eq k))

pub free_parts :
    (p : Pipeline) (i : ℕ)
    → is_free p i ≡ true
    → ((p.slots i).refcount ≡ 0) × (is_latest p.latest i ≡ false)
free_parts p i e = ground arith

claim-IsExact :
    (p : Pipeline) (held : List Pin) (o : Option ℕ)
    → ((i : ℕ) → o ≡ some i → is_free p i ≡ true)
    → IsExact p held
    → IsExact (claim p o) held
claim-IsExact p held none free x = record {
  refs = x.refs;
  owns = x.owns;
  pends = x.pends;
  quiet = x.quiet;
}
claim-IsExact p held (some f) free x = record {
  refs = λ i.
      at_update (λ j. ((claim p (some f)).slots j).refcount ≡ pinned j held) f i
        (λ e. rw e (x.refs f)) (λ e e'. rw e (x.refs i));
  owns = x.owns;
  pends = x.pends;
  quiet = λ i.
      at_update
        (λ j.
          ((claim p (some f)).slots j).filling ≡ true → (pinned j held ≡ 0) × (p.latest ≢ some j))
        f i (λ e h. (sym (x.refs f) ∙ parts.0, free_latest p.latest f parts.1))
        (λ e e' h. x.quiet i (rw e at h));
}
  where
    parts : ((p.slots f).refcount ≡ 0) × (is_latest p.latest f ≡ false)
    parts = free_parts p f (free f refl)

-- a sink as `frame_pipeline_attach` resets it
abbrev cleared : ℕ → Pipeline → Sink
cleared k p = record (p.sinks k) {
  busy = false;
  pending = none;
  pins = 0;
  delivered = 0;
  dropped = 0;
  errors = 0;
}

attach-IsExact :
    (p : Pipeline) (held : List Pin) (k : ℕ)
    → owned k held ≡ 0
    → IsExact p held
    → IsExact (attach_locked k p) held
attach-IsExact p held k none_left x = record {
  refs = x.refs;
  owns = λ j.
      at_update (λ i. ((on_sink p k (cleared k p)).sinks i).pins ≡ owned i held) k j
        (λ a. rw a (sym none_left)) (λ a a'. rw a (x.owns j));
  pends = Pends-on_sink p held k (cleared k p) (λ g c. cc) (λ j g ne c. x.pends j g c);
  quiet = x.quiet;
}

detach-IsExact :
    (p : Pipeline) (held : List Pin) (k : ℕ) (o : Option ℕ)
    → (p.sinks k).pending ≡ o
    → IsExact p held
    → IsExact (drop_pending k o p) (without k o held)
detach-IsExact p held k none e x = x
detach-IsExact p held k (some g) e x = record {
  refs = Refs-down p held (queued k g) (x.pends k g e) x.refs;
  owns =
      Owns-on_sink (unpin_locked (some k) g p) (remove (queued k g) held) k _ refl
        (Owns-down (ref_down g p) held k (queued k g) (λ j. refl) (x.pends k g e) x.owns);
  pends =
      Pends-on_sink (unpin_locked (some k) g p) (remove (queued k g) held) k _ (λ h c. cc)
        (λ j h ne a.
          Has-remove (queued k g) (queued j h) held (λ q. ne cc)
            (x.pends j h (rw (ne→== j k ne) at a)));
  quiet = Quiet-down p held (queued k g) (x.pends k g e) x.quiet;
}

-- A pin that a sink gets on a frame that it has.
pub not_filling :
    (p : Pipeline) (held : List Pin) (q : Pin)
    → IsExact p held
    → Has q held
    → (p.slots (slot_of q)).filling ≡ false
not_filling p held q x m = elim (Bool-cases (p.slots (slot_of q)).filling) [
  | inl e ↦ absurd (not_held q held (x.quiet (slot_of q) e).0 m)
  | inr e ↦ e
]

get-IsExact :
    (p : Pipeline) (held : List Pin) (k f : ℕ)
    → Has (delivered k f) held
    → IsExact p held
    → IsExact (frame_pipeline_get (some k) f p) (delivered k f ∷ held)
unfolding frame_pipeline_get
get-IsExact p held k f m x = record {
  refs = Refs-up p held (delivered k f) x.refs;
  owns = Owns-up (ref_up f p) held k (delivered k f) (λ j. refl) x.owns;
  pends =
      Pends-on_sink (ref_up f p) (delivered k f ∷ held) k _ (λ g e. inr (x.pends k g e))
        (λ j g ne e. inr (x.pends j g e));
  quiet = Quiet-up p held (delivered k f) (not_filling p held (delivered k f) x m) x.quiet;
}

pin_latest-IsExact :
    (p : Pipeline) (held : List Pin) (o : Option ℕ)
    → p.latest ≡ o
    → IsExact p held
    → IsExact (pin_slot o p) (pulled_latest o held)
pin_latest-IsExact p held none e x = x
pin_latest-IsExact p held (some i) e x = record {
  refs = Refs-up p held (pulled i) x.refs;
  owns = Owns-pulled (ref_up i p) held i x.owns;
  pends = Pends-cons (ref_up i p) held (pulled i) x.pends;
  quiet = Quiet-up p held (pulled i) live x.quiet;
}
  where
    live : (p.slots i).filling ≡ false
    live = elim (Bool-cases (p.slots i).filling) [ inl h ↦ absurd ((x.quiet i h).1 e) | inr h ↦ h ]

put_pulled-IsExact :
    (p : Pipeline) (held : List Pin) (f : ℕ)
    → Has (pulled f) held
    → IsExact p held
    → IsExact (frame_pipeline_put none f p).0 (remove (pulled f) held)
unfolding frame_pipeline_put
put_pulled-IsExact p held f m x = record {
  refs = Refs-down p held (pulled f) m x.refs;
  owns = Owns-pulled_back (ref_down f p) held f m x.owns;
  pends = Pends-remove (ref_down f p) held (pulled f) (λ k g e q. cc) x.pends;
  quiet = Quiet-down p held (pulled f) m x.quiet;
}

-- A sink gives back a frame that it has.
unpin-IsExact :
    (p : Pipeline) (held : List Pin) (k f : ℕ)
    → Has (delivered k f) held
    → IsExact p held
    → IsExact (unpin_locked (some k) f p) (remove (delivered k f) held)
unpin-IsExact p held k f m x = record {
  refs = Refs-down p held (delivered k f) m x.refs;
  owns = Owns-down (ref_down f p) held k (delivered k f) (λ j. refl) m x.owns;
  pends =
      Pends-on_sink (ref_down f p) (remove (delivered k f) held) k _
        (λ g e. Has-remove (delivered k f) (queued k g) held (λ q. cc) (x.pends k g e))
        (λ j g ne e. Has-remove (delivered k f) (queued j g) held (λ q. cc) (x.pends j g e));
  quiet = Quiet-down p held (delivered k f) m x.quiet;
}

-- A queued pin becomes a delivered one: no count changes.
pinned-handed_on :
    (k g i : ℕ) (held : List Pin)
    → Has (queued k g) held
    → pinned i (delivered k g ∷ remove (queued k g) held) ≡ pinned i held
unfolding pinned
pinned-handed_on k g i held m = sym (pinned-remove (queued k g) held i m)

owned-handed_on :
    (k g j : ℕ) (held : List Pin)
    → Has (queued k g) held
    → owned j (delivered k g ∷ remove (queued k g) held) ≡ owned j held
unfolding owned
owned-handed_on k g j held m = sym (owned-remove (queued k g) held j m)

absurd_none : {P : Type 0} {h : ℕ} → none ≡ some h → P
absurd_none e = cc

next-IsExact :
    (p : Pipeline) (held : List Pin) (k : ℕ) (o : Option ℕ)
    → (p.sinks k).pending ≡ o
    → IsExact p held
    → IsExact (next_delivery k o p).0 (handed_on k o held)
next-IsExact p held k none e x = record {
  refs = x.refs;
  owns = Owns-on_sink p held k _ refl x.owns;
  pends = Pends-on_sink p held k _ (λ g c. x.pends k g c) (λ j g ne c. x.pends j g c);
  quiet = x.quiet;
}
next-IsExact p held k (some g) e x = record {
  refs = λ i. x.refs i ∙ sym (pinned-handed_on k g i held (x.pends k g e));
  owns = λ j.
      at_update (λ i. ((next_delivery k (some g) p).0.sinks i).pins ≡ owned i held) k j
        (λ a. rw a (x.owns k)) (λ a a'. rw a (x.owns j))
      ∙ sym (owned-handed_on k g j held (x.pends k g e));
  pends = λ j.
      at_update
        (λ i.
          (h : ℕ)
          → ((next_delivery k (some g) p).0.sinks i).pending ≡ some h
          → Has (queued i h) (delivered k g ∷ remove (queued k g) held))
        k j (λ a h c. absurd_none (rw a at c))
        (λ a a' h c. inr (
          Has-remove (queued k g) (queued j h) held (λ q. ==→ne j k a cc)
            (x.pends j h (rw a at c))));
  quiet = λ i h. (pinned-handed_on k g i held (x.pends k g e) ∙ (x.quiet i h).0, (x.quiet i h).1);
}

put-IsExact :
    (p : Pipeline) (held : List Pin) (k f : ℕ)
    → Has (delivered k f) held
    → IsExact p held
    → IsExact
        (frame_pipeline_put (some k) f p).0
        (handed_on k (p.sinks k).pending (remove (delivered k f) held))
unfolding frame_pipeline_put
put-IsExact p held k f m x = rw (eq→== k k refl) (
    next-IsExact (unpin_locked (some k) f p) (remove (delivered k f) held) k (p.sinks k).pending
      (rw (eq→== k k refl) refl) (unpin-IsExact p held k f m x))

-- Every step of the protocol keeps the counts exact.
pub Step-IsExact :
    {p q : Pipeline} {held held' : List Pin}
    → Step p held q held'
    → IsExact p held
    → IsExact q held'
unfolding frame_pipeline_acquire frame_pipeline_detach frame_pipeline_pin_latest consumed
    frame_pipeline_set_format
Step-IsExact (set_format p held fmt w h) x = record {
  refs = x.refs;
  owns = x.owns;
  pends = x.pends;
  quiet = x.quiet;
}
Step-IsExact (acquire p held) x = claim-IsExact p held _ (λ i e. find_free-is_free p.nslots 0 p e) x
Step-IsExact (publish p held f a e) x = publish-IsExact f a p held x
Step-IsExact (count p held k failed) x = record {
  refs = x.refs;
  owns = Owns-on_sink p held k _ refl x.owns;
  pends = Pends-on_sink p held k _ (λ g c. x.pends k g c) (λ j g ne c. x.pends j g c);
  quiet = x.quiet;
}
Step-IsExact (attach p held k out e) x = attach-IsExact p held k e x
Step-IsExact (detach p held k) x =
    detach-IsExact _ held k _ refl
      (record { refs = x.refs; owns = x.owns; pends = x.pends; quiet = x.quiet })
Step-IsExact (get p held k f m) x = get-IsExact p held k f m x
Step-IsExact (put p held k f m) x = put-IsExact p held k f m x
Step-IsExact (pin_latest p held) x = pin_latest-IsExact p held _ refl x
Step-IsExact (put_pulled p held f m) x = put_pulled-IsExact p held f m x
