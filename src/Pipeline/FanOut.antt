-- ===== src/Pipeline/FanOut.antt =====
-- Publishing keeps the counts exact: every frame that is delivered or queued has its pin.
use stm32f746g_disco.Prelude.{
  ℕ, ◌≡◌, refl, sym, ap, ◌∙◌, subst, ◌≢◌, inl, inr, Bool, true, false, Option, none, some, List, [],
  ◌∷◌, ◌==◌, eq→==, ne→==, ==→ne, some_eq, absurd_bool,
}
use stm32f746g_disco.Pipeline.{
  Sink, Policy, drop_frame, keep_latest, Pipeline, on_sink, ref_up, ref_down, pin_up, unpin_locked,
  discard, offer_to, offer, fan_out, Frame, stamp, frame_pipeline_publish,
}
use stm32f746g_disco.Pipeline.Pins.{Pin, delivered, queued, slot_of, owned_by, pinned, Has, remove}
use stm32f746g_disco.Pipeline.Pins.Count.{Has-remove}
use stm32f746g_disco.Pipeline.Invariant.{
  Refs, Owns, Quiet, IsExact, at_update, Refs-up, Refs-down, Owns-up, Owns-down, Owns-on_sink,
  Pends-on_sink, Quiet-up, Quiet-down, filling-ref_up, filling-ref_down,
}

-- the pins behind the offer of frame `f` to sink `k`
abbrev pub without : ℕ → Option ℕ → List Pin → List Pin
without k none held = held
without k (some g) held = remove (queued k g) held

unfoldable pub offered : Bool → Policy → ℕ → ℕ → Option ℕ → List Pin → List Pin
offered true drop_frame k f o held = held
offered true keep_latest k f o held = queued k f ∷ without k o held
offered false policy k f o held = delivered k f ∷ held

-- the frame is published, so its slot takes pins
abbrev pub Live : Pipeline → ℕ → List Pin → Type 0
Live p f held = IsExact p held × ((p.slots f).filling ≡ false)

-- The pending frame of a sink goes; what is left holds but for this sink's pending field.
record Discarded (p : Pipeline) (f k : ℕ) (held : List Pin) : Type 0 where
  refs : Refs p held
  owns : Owns p held
  others : (j g : ℕ) → j ≢ k → (p.sinks j).pending ≡ some g → Has (queued j g) held
  quiet : Quiet p held
  live : (p.slots f).filling ≡ false

discard-Discarded :
    (p : Pipeline) (f k : ℕ) (held : List Pin) (o : Option ℕ)
    → (p.sinks k).pending ≡ o
    → Live p f held
    → Discarded (discard k o p) f k (without k o held)
discard-Discarded p f k held none e (x, live) = record {
  refs = x.refs;
  owns = x.owns;
  others = λ j g ne a. x.pends j g a;
  quiet = x.quiet;
  live = live;
}
discard-Discarded p f k held (some g) e (x, live) = record {
  refs = Refs-down p held (queued k g) (x.pends k g e) x.refs;
  owns =
      Owns-on_sink (unpin_locked (some k) g p) (remove (queued k g) held) k _ refl
        (Owns-down (ref_down g p) held k (queued k g) (λ j. refl) (x.pends k g e) x.owns);
  others = λ j g' ne a.
      Has-remove (queued k g) (queued j g') held (λ q. ne cc)
        (x.pends j g' (rw (ne→== j k ne) at a));
  quiet = Quiet-down p held (queued k g) (x.pends k g e) x.quiet;
  live = filling-ref_down p g f ∙ live;
}

undiscarded : (p : Pipeline) (f k : ℕ) (held : List Pin) → Live p f held → Discarded p f k held
undiscarded p f k held (x, live) = record {
  refs = x.refs;
  owns = x.owns;
  others = λ j g ne a. x.pends j g a;
  quiet = x.quiet;
  live = live;
}

-- The new frame is pinned for the sink, whose fields change from `s` on.
pin_for :
    (p : Pipeline) (f k : ℕ) (held : List Pin) (s : Sink) (q : Pin)
    → slot_of q ≡ f
    → ((j : ℕ) → owned_by j q ≡ (k == j))
    → s.pins ≡ (p.sinks k).pins
    → ((g : ℕ) → s.pending ≡ some g → Has (queued k g) (q ∷ held))
    → Discarded p f k held
    → Live (pin_up k (ref_up f (on_sink p k s))) f (q ∷ held)
pin_for p f k held s q at own same pend d = (
  record {
    refs = subst (λ x. Refs (ref_up x p) (q ∷ held)) at (Refs-up p held q d.refs);
    owns = Owns-up (on_sink p k s) held k q own (Owns-on_sink p held k s same d.owns);
    pends =
        Pends-on_sink (on_sink p k s) (q ∷ held) k _ (λ g e. pend g (rw (eq→== k k refl) at e))
          (λ j g ne e. inr (d.others j g ne (rw (ne→== j k ne) at e)));
    quiet =
        subst (λ x. Quiet (ref_up x p) (q ∷ held)) at (Quiet-up p held q (rw at d.live) d.quiet);
  },
  filling-ref_up p f f ∙ d.live,
)

offer_to-Live :
    (b : Bool) (policy : Policy) (k f : ℕ) (p : Pipeline) (held : List Pin)
    → Live p f held
    → Live (offer_to b policy k f p).0 f (offered b policy k f (p.sinks k).pending held)
unfolding offer_to offered
offer_to-Live true drop_frame k f p held (x, live) = (
  record {
    refs = x.refs;
    owns = Owns-on_sink p held k _ refl x.owns;
    pends = Pends-on_sink p held k _ (λ g e. x.pends k g e) (λ j g ne e. x.pends j g e);
    quiet = x.quiet;
  },
  live,
)
offer_to-Live true keep_latest k f p held l =
    let o = (p.sinks k).pending in
    let q = discard k o p in
    pin_for q f k (without k o held) (record (q.sinks k) { pending = some f }) (queued k f) refl
      (λ j. refl) refl (λ g e. inl (ap (queued k) (some_eq e)))
      (discard-Discarded p f k held o refl l)
offer_to-Live false policy k f p held l =
    pin_for p f k held (record (p.sinks k) { busy = true }) (delivered k f) refl (λ j. refl) refl
      (λ g e. inr (l.0.pends k g e)) (undiscarded p f k held l)

-- the pins behind the whole fan-out
unfoldable pub pins_after : List ℕ → ℕ → Pipeline → List Pin → List Pin
unfolding offered
pins_after [] f p held = held
pins_after (k ∷ ks) f p held =
    pins_after ks f (offer k f p).0
      (offered (p.sinks k).busy (p.sinks k).policy k f (p.sinks k).pending held)

fan_out-Live :
    (ks : List ℕ) (f : ℕ) (p : Pipeline) (held : List Pin) (deliver : List ℕ)
    → Live p f held
    → Live (fan_out ks f p deliver).0 f (pins_after ks f p held)
unfolding fan_out pins_after offer
fan_out-Live [] f p held deliver l = l
fan_out-Live (k ∷ ks) f p held deliver l =
    fan_out-Live ks f (offer k f p).0
      (offered (p.sinks k).busy (p.sinks k).policy k f (p.sinks k).pending held) _
      (offer_to-Live (p.sinks k).busy (p.sinks k).policy k f p held l)

stamp-Live :
    (f : ℕ) (a : Frame) (p : Pipeline) (held : List Pin)
    → IsExact p held
    → Live (stamp f a p) f held
stamp-Live f a p held x = (
  record {
    refs = λ i.
        at_update (λ j. ((stamp f a p).slots j).refcount ≡ pinned j held) f i (λ e. rw e (x.refs f))
          (λ e e'. rw e (x.refs i));
    owns = x.owns;
    pends = x.pends;
    quiet = λ i.
        at_update
          (λ j. ((stamp f a p).slots j).filling ≡ true → (pinned j held ≡ 0) × (some f ≢ some j)) f
          i (λ e h. absurd_bool (rw e at h))
          (λ e e' h. ((x.quiet i (rw e at h)).0, λ k. ==→ne f i e' (some_eq k)));
  },
  at_update (λ j. ((stamp f a p).slots f).filling ≡ false) f f (λ e. rw e refl)
      (λ e e'. absurd_bool (sym e ∙ eq→== f f refl)),
)

-- Publishing keeps the counts exact, for the pins that it hands out.
pub publish-IsExact :
    (f : ℕ) (a : Frame) (p : Pipeline) (held : List Pin)
    → IsExact p held
    → IsExact (frame_pipeline_publish f a p).0 (pins_after p.attached f (stamp f a p) held)
unfolding frame_pipeline_publish
publish-IsExact f a p held x =
    (fan_out-Live p.attached f (stamp f a p) held [] (stamp-Live f a p held x)).0
