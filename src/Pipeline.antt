-- ===== src/Pipeline.antt =====
-- svc/frame_pipeline.c: the ring of frame slots and the fan-out to sinks. A `struct frame_desc *` is
-- the index of the slot that holds it, a `struct frame_sink *` a number; the sinks are objects of
-- their owners, kept in a store, and the linked list of the attached ones is a list of numbers. What
-- runs under the injected lock is one step; a `consume` callback runs between two of them.
pub mod Pins
pub mod Invariant
pub mod FanOut
pub mod Protocol
mod Tests
use stm32f746g_disco.Prelude.{
  ℕ, zero, suc, ◌+◌, ◌-◌, ◌*◌, ◌/◌, ◌%◌, ◌^◌, ◌≤◌, ◌<◌, min, max, bit_and, bit_or, bit_xor, ◌≡◌,
  refl, sym, ap, ap₂, ◌∙◌, subst, ◌≢◌, ◌↔◌, ◌⊎◌, inl, inr, Bool, true, false, not, ◌&&◌, ◌||◌,
  Option, none, some, List, [], ◌∷◌, ◌++◌, map, append_assoc, append-nil, arith, ltb, leb, ◌==◌,
  if◌then◌else◌, eq→==, ne→==, ==_iff, lt→ltb, le→ltb, tests, leb→le, leb→lt, ltb→lt, ltb→le, ==→eq,
  ==→ne, Bool-cases, Option-cases, some_eq, absurd_bool, length, get_elem?, get_or, set, take, drop,
  replicate, length-append, length-set, length-take, length-drop, length-replicate,
  take-append-drop, get_or-set_self, get_or-set_ne, Bytes, codes, bytes_eq, bytes_eq_iff,
}

abbrev pub u32 : ℕ → ℕ
u32 n = n % 2 ^ 32

-- FRAME_PIPELINE_MAX_SLOTS, FRAME_PIPELINE_MAX_SINKS
abbrev pub max_slots : ℕ
max_slots = 8

abbrev pub max_sinks : ℕ
max_sinks = 4

pub data Policy : Type 0 where
  drop_frame keep_latest : Policy

-- `enum frame_format`
pub data Format : Type 0 where
  rgb565 yuv422 y8 jpeg : Format

-- `struct frame_slot` with its `struct frame_desc`; `filling` for SLOT_FILLING
pub record Slot : Type 0 where
  pub address : ℕ
  pub filling : Bool
  pub refcount : ℕ
  pub bytes : ℕ
  pub gen : ℕ
  pub format : Format
  pub width : ℕ
  pub height : ℕ
  pub stride : ℕ

-- the part of `struct frame_sink` that the core keeps
pub record Sink : Type 0 where
  pub policy : Policy
  pub pending : Option ℕ
  pub busy : Bool
  pub pins : ℕ
  pub delivered : ℕ
  pub dropped : ℕ
  pub errors : ℕ

-- `struct frame_pipeline`, with the sinks that its list points at
pub record Pipeline : Type 0 where
  pub slots : ℕ → Slot
  pub nslots : ℕ
  pub slot_size : ℕ
  pub latest : Option ℕ
  pub gen : ℕ
  pub format : Format
  pub width : ℕ
  pub height : ℕ
  pub captured : ℕ
  pub published : ℕ
  pub overruns : ℕ
  pub attached : List ℕ
  pub sinks : ℕ → Sink

abbrev pub update {ℓ} : {A : Type ℓ} → (ℕ → A) → ℕ → A → ℕ → A
update f k v i = if i == k then v else f i

abbrev pub on_slot : Pipeline → ℕ → Slot → Pipeline
on_slot p f s = record p { slots = update p.slots f s }

abbrev pub on_sink : Pipeline → ℕ → Sink → Pipeline
on_sink p k s = record p { sinks = update p.sinks k s }

abbrev pub less_one : ℕ → ℕ
less_one n = if ltb 0 n then n - 1 else n

abbrev pub ref_up : ℕ → Pipeline → Pipeline
ref_up f p = on_slot p f (record (p.slots f) { refcount = (p.slots f).refcount + 1 })

abbrev pub ref_down : ℕ → Pipeline → Pipeline
ref_down f p = on_slot p f (record (p.slots f) { refcount = less_one (p.slots f).refcount })

abbrev pub pin_up : ℕ → Pipeline → Pipeline
pin_up k p = on_sink p k (record (p.sinks k) { pins = (p.sinks k).pins + 1 })

abbrev pub pin_down : ℕ → Pipeline → Pipeline
pin_down k p = on_sink p k (record (p.sinks k) { pins = less_one (p.sinks k).pins })

-- `unpin_locked`; the sink may be NULL
abbrev pub unpin_locked : Option ℕ → ℕ → Pipeline → Pipeline
unpin_locked none f p = ref_down f p
unpin_locked (some k) f p = pin_down k (ref_down f p)

abbrev blank_slot : ℕ → Slot
blank_slot a = record {
  address = a;
  filling = false;
  refcount = 0;
  bytes = 0;
  gen = 0;
  format = rgb565;
  width = 0;
  height = 0;
  stride = 0;
}

-- `frame_pipeline_init` with the slot memory at an address (0 for NULL); `none` is the -1
pub frame_pipeline_init : ℕ → ℕ → ℕ → (ℕ → Sink) → Option Pipeline
frame_pipeline_init slot_mem slot_size nslots sinks =
    if slot_mem == 0 || slot_size == 0 || nslots == 0 || ltb max_slots nslots
    then none
    else some (record {
      slots = λ i. blank_slot (slot_mem + i * slot_size);
      nslots = nslots;
      slot_size = slot_size;
      latest = none;
      gen = 0;
      format = rgb565;
      width = 0;
      height = 0;
      captured = 0;
      published = 0;
      overruns = 0;
      attached = [];
      sinks = sinks;
    })

pub frame_pipeline_set_format : Format → ℕ → ℕ → Pipeline → Pipeline
frame_pipeline_set_format fmt w h p = record p { format = fmt; width = w; height = h }

abbrev pub is_latest : Option ℕ → ℕ → Bool
is_latest none i = false
is_latest (some j) i = i == j

abbrev pub is_free : Pipeline → ℕ → Bool
is_free p i = not (p.slots i).filling && (p.slots i).refcount == 0 && not (is_latest p.latest i)

-- the search of `frame_pipeline_acquire`, with the rounds left
pub find_free : ℕ → ℕ → Pipeline → Option ℕ
find_free zero i p = none
find_free (suc k) i p = elim (is_free p i) [ true ↦ some i | false ↦ find_free k (suc i) p ]

abbrev pub claim : Pipeline → Option ℕ → Pipeline
claim p none = record p { overruns = u32 (p.overruns + 1) }
claim p (some i) = record (on_slot p i (record (p.slots i) { filling = true })) {
  captured = u32 (p.captured + 1);
}

pub frame_pipeline_acquire : Pipeline → Pipeline × Option ℕ
unfolding find_free
frame_pipeline_acquire p = let r = find_free p.nslots 0 p in (claim p r, r)

-- the frame that a publish stamps
pub record Frame : Type 0 where
  pub bytes : ℕ
  pub format : Format
  pub width : ℕ
  pub height : ℕ
  pub stride : ℕ

abbrev pub stamp : ℕ → Frame → Pipeline → Pipeline
stamp f a p =
    let g = u32 (p.gen + 1) in
    record p {
      gen = g;
      latest = some f;
      published = g;
      slots = update p.slots f (record (p.slots f) {
        filling = false;
        bytes = a.bytes;
        gen = g;
        format = a.format;
        width = a.width;
        height = a.height;
        stride = a.stride;
      });
    }

abbrev pub count_drop : ℕ → Pipeline → Pipeline
count_drop k p = on_sink p k (record (p.sinks k) { dropped = u32 ((p.sinks k).dropped + 1) })

-- a pending frame that a newer one replaces
abbrev pub discard : ℕ → Option ℕ → Pipeline → Pipeline
discard k none p = p
discard k (some g) p = count_drop k (unpin_locked (some k) g p)

abbrev pub set_pending : ℕ → Option ℕ → Pipeline → Pipeline
set_pending k o p = on_sink p k (record (p.sinks k) { pending = o })

abbrev pub set_busy : ℕ → Bool → Pipeline → Pipeline
set_busy k b p = on_sink p k (record (p.sinks k) { busy = b })

-- One sink of the fan-out; the Boolean says whether the frame is delivered to it now.
pub offer_to : Bool → Policy → ℕ → ℕ → Pipeline → Pipeline × Bool
offer_to true drop_frame k f p = (count_drop k p, false)
offer_to true keep_latest k f p =
    (pin_up k (ref_up f (set_pending k (some f) (discard k (p.sinks k).pending p))), false)
offer_to false policy k f p = (pin_up k (ref_up f (set_busy k true p)), true)

pub offer : ℕ → ℕ → Pipeline → Pipeline × Bool
unfolding offer_to
offer k f p = offer_to (p.sinks k).busy (p.sinks k).policy k f p

-- the loop over the sinks; `deliver` holds those that are served, at most FRAME_PIPELINE_MAX_SINKS
pub fan_out : List ℕ → ℕ → Pipeline → List ℕ → Pipeline × List ℕ
unfolding offer
fan_out [] f p deliver = (p, deliver)
fan_out (k ∷ ks) f p deliver =
    let (q, now) = offer k f p in
    fan_out ks f q (if now && ltb (length deliver) max_sinks then deliver ++ k ∷ [] else deliver)

-- the locked part of `frame_pipeline_publish`: the pipeline, and the sinks whose `consume` is called
pub frame_pipeline_publish : ℕ → Frame → Pipeline → Pipeline × List ℕ
unfolding fan_out
frame_pipeline_publish f a p = fan_out p.attached f (stamp f a p) []

-- what is counted behind a `consume`, in `frame_pipeline_publish` and in `frame_pipeline_put`
pub consumed : ℕ → Bool → Pipeline → Pipeline
consumed k failed p =
    let s = p.sinks k in
    on_sink p k (record s {
      errors = if failed then u32 (s.errors + 1) else s.errors;
      delivered = u32 (s.delivered + 1);
    })

pub data Attached : Type 0 where
  no_room : Attached
  refused : Attached
  done : Attached

-- the second locked part of `frame_pipeline_attach`, behind the sink's `open`
abbrev pub attach_locked : ℕ → Pipeline → Pipeline
attach_locked k p =
    record (on_sink p k (record (p.sinks k) {
      busy = false;
      pending = none;
      pins = 0;
      delivered = 0;
      dropped = 0;
      errors = 0;
    })) { attached = k ∷ p.attached }

-- `frame_pipeline_attach` with nothing between its locked parts; `rejects` is the answer of `open`
pub frame_pipeline_attach : ℕ → Bool → Pipeline → Pipeline × Attached
frame_pipeline_attach k rejects p =
    if leb max_sinks (length p.attached)
    then (p, no_room)
    else if rejects
    then (p, refused)
    else (attach_locked k p, done)

pub unlink : ℕ → List ℕ → List ℕ
unlink k [] = []
unlink k (j ∷ js) = if j == k then js else j ∷ unlink k js

abbrev pub drop_pending : ℕ → Option ℕ → Pipeline → Pipeline
drop_pending k none p = p
drop_pending k (some g) p = set_pending k none (unpin_locked (some k) g p)

-- `frame_pipeline_detach`: the pipeline and the pins in flight
pub frame_pipeline_detach : ℕ → Pipeline → Pipeline × ℕ
unfolding unlink
frame_pipeline_detach k p =
    let q = drop_pending k (p.sinks k).pending (record p { attached = unlink k p.attached }) in
    (q, (q.sinks k).pins)

pub frame_pipeline_get : Option ℕ → ℕ → Pipeline → Pipeline
frame_pipeline_get none f p = ref_up f p
frame_pipeline_get (some k) f p = pin_up k (ref_up f p)

-- the pending frame of a sink that is done with the one before
abbrev pub next_delivery : ℕ → Option ℕ → Pipeline → Pipeline × Option ℕ
next_delivery k none p = (set_busy k false p, none)
next_delivery k (some g) p = (set_busy k true (set_pending k none (set_busy k false p)), some g)

-- the first locked part of `frame_pipeline_put`: the pipeline, and the frame to consume next
pub frame_pipeline_put : Option ℕ → ℕ → Pipeline → Pipeline × Option ℕ
frame_pipeline_put none f p = (unpin_locked none f p, none)
frame_pipeline_put (some k) f p =
    let q = unpin_locked (some k) f p in next_delivery k (q.sinks k).pending q

-- what `memcpy` reads: where from, and the generation of the frame
pub record Copy : Type 0 where
  pub from : ℕ
  pub len : ℕ
  pub gen : ℕ

abbrev pub copy_of : Slot → ℕ → ℕ → Option Copy
copy_of s off len =
    if ltb off s.bytes && leb len ((s.bytes + 2 ^ 32 - off) % 2 ^ 32)
    then some (record { from = s.address + off; len = len; gen = s.gen })
    else none

-- `frame_pipeline_read_latest` with a destination; `none` is the -1
pub frame_pipeline_read_latest : ℕ → ℕ → Pipeline → Option Copy
frame_pipeline_read_latest off len p =
    if len == 0 then none else elim p.latest [ none ↦ none | some i ↦ copy_of (p.slots i) off len ]

abbrev pub pin_slot : Option ℕ → Pipeline → Pipeline
pin_slot none p = p
pin_slot (some i) p = ref_up i p

pub frame_pipeline_pin_latest : Pipeline → Pipeline × Option ℕ
frame_pipeline_pin_latest p = (pin_slot p.latest p, p.latest)
