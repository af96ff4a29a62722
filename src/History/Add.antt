-- ===== src/History/Add.antt =====
-- `cli_history_add` on the list of entries.
use stm32f746g_disco.Prelude.{
  ℕ, zero, suc, ◌+◌, ◌-◌, ◌≤◌, ◌<◌, ◌≡◌, refl, sym, ap, ◌∙◌, subst, ◌≢◌, ◌⊎◌, inl, inr, Bool, true,
  false, not, ◌&&◌, Option, none, some, List, [], ◌∷◌, ◌++◌, arith, ltb, if◌then◌else◌, ne→==,
  lt→ltb, le→ltb, tests, Bool-cases, length, length-append, Bytes, bytes_eq,
}
use stm32f746g_disco.Memory.{
  Mem, write, IsString, SameBelow, write_self, write_ne, IsString-SameBelow,
}
use stm32f746g_disco.History.{
  History, u16, history_buffer_size, hist_next_off, walk_loop, move_down, store_string, same_string,
  evict_loop, append_entry, is_repeat, add_unless, rejected, cli_history_add,
}
use stm32f746g_disco.History.Packed.{
  Packed, size, size-append, Packed-size, next_off_lem, walk_lem, Packed-entry,
}
use stm32f746g_disco.History.Recall.{Holding}

-- The entries that are left when the oldest make room for `l` bytes and a NUL.
unfoldable pub evict : ℕ → List Bytes → List Bytes
evict l [] = []
evict l (e ∷ es) = if ltb history_buffer_size (size (e ∷ es) + l + 1) then evict l es else e ∷ es

abbrev pub NoNul : Bytes → Type 0
NoNul [] = Unit {0}
NoNul (c ∷ cs) = (c ≢ 0) × NoNul cs

same_string_lem :
    (line e : Bytes) (m : Mem) (p : ℕ)
    → NoNul line
    → IsString m p e
    → same_string m p line ≡ bytes_eq e line
unfolding same_string bytes_eq
same_string_lem [] [] m p n u = rw u
same_string_lem [] (d ∷ e) m p n u = rw u.0 (ne→== d 0 u.1)
same_string_lem (c ∷ cs) [] m p n u = rw (u, ne→== 0 c (λ h. n.0 (sym h)))
same_string_lem (c ∷ cs) (d ∷ e) m p n u = rw (u.0, same_string_lem cs e m (suc p) n.1 u.2)

IsString-move_down :
    (e : Bytes) (m : Mem) (from n p : ℕ)
    → IsString m (from + p) e
    → p + length e < n
    → IsString (move_down m from n) p e
unfolding move_down
IsString-move_down [] m from n p u lt = rw (lt→ltb p n (omega arith)) u
IsString-move_down (c ∷ cs) m from n p u lt = (
  rw (lt→ltb p n (omega arith)) u.0,
  u.1,
  IsString-move_down cs m from n (suc p) (subst (λ x. IsString m x cs) (omega arith) u.2)
      (omega arith),
)

Packed-move_down :
    (es : List Bytes) (m : Mem) (from n p : ℕ)
    → Packed m (from + p) es (from + n)
    → Packed (move_down m from n) p es n
Packed-move_down [] m from n p h = omega arith
Packed-move_down (e ∷ es) m from n p h = (
  IsString-move_down e m from n p h.0
      (omega (arith, Packed-size es m (suc (from + p + length e)) (from + n) h.1)),
  Packed-move_down es m from n (suc (p + length e))
      (subst (λ x. Packed m x es (from + n)) (omega arith) h.1),
)

-- what the loop that makes room leaves
abbrev Room : ℕ → List Bytes → Option (Mem × ℕ) → Type 0
Room l es none = ⊥
Room l es (some (m, used)) = Packed m 0 es used × (used + l + 1 ≤ history_buffer_size)

evict_loop-Room :
    (es : List Bytes) (f l : ℕ) (m : Mem) (used : ℕ)
    → Packed m 0 es used
    → used ≤ history_buffer_size
    → l + 1 ≤ history_buffer_size
    → length es < f
    → Room l (evict l es) (evict_loop f l m used)
unfolding evict_loop evict
evict_loop-Room es zero l m used h small fits lt = absurd (omega arith)
evict_loop-Room [] (suc f) l m used h small fits lt =
    rw (le→ltb history_buffer_size (used + l + 1) (omega arith), evict_loop) (h, omega arith)
evict_loop-Room (e ∷ es) (suc f) l m used h small fits lt =
    elim (Bool-cases (ltb history_buffer_size (used + l + 1))) [
      | inl full ↦
          rw (subst (λ x. ltb history_buffer_size (x + l + 1) ≡ true) total full, full, evict_loop)
            (rw (next, wrap)
              (evict_loop-Room es f l (move_down m (suc (length e)) (used - suc (length e)))
                (used - suc (length e))
                (Packed-move_down es m (suc (length e)) (used - suc (length e)) 0 shifted)
                (omega arith) fits (omega arith)))
      | inr room ↦
          rw (subst (λ x. ltb history_buffer_size (x + l + 1) ≡ false) total room, room, evict_loop)
            (h, omega tests)
    ]
  where
    total : used ≡ suc (length e) + size es
    total = omega (arith, Packed-size (e ∷ es) m 0 used h)

    next : hist_next_off m used 0 ≡ suc (length e)
    next = next_off_lem e m 0 used h.0 (omega (arith, total)) small ∙ omega arith

    wrap : u16 (used - suc (length e)) ≡ used - suc (length e)
    wrap = omega arith

    shifted : Packed m (suc (length e) + 0) es (suc (length e) + (used - suc (length e)))
    shifted =
        subst (λ x. Packed m (suc (length e) + 0) es x) (omega (arith, total))
          (subst (λ x. Packed m x es used) (omega arith) h.1)

store_string-SameBelow :
    (line : Bytes) (m : Mem) (p q : ℕ) → q ≤ p → SameBelow q m (store_string m p line)
unfolding store_string
store_string-SameBelow [] m p q h = λ i lt. write_ne m p 0 i (omega arith)
store_string-SameBelow (c ∷ cs) m p q h = λ i lt.
    store_string-SameBelow cs (write m p c) (suc p) q (omega arith) i lt
    ∙ write_ne m p c i (omega arith)

store_string-IsString :
    (line : Bytes) (m : Mem) (p : ℕ) → NoNul line → IsString (store_string m p line) p line
unfolding store_string
store_string-IsString [] m p n = write_self m p 0
store_string-IsString (c ∷ cs) m p n = (
  store_string-SameBelow cs (write m p c) (suc p) (suc p) (omega arith) p (omega arith)
      ∙ write_self m p c,
  n.0,
  store_string-IsString cs (write m p c) (suc p) n.1,
)

Packed-store_string :
    (es : List Bytes) (m : Mem) (p used : ℕ) (line : Bytes)
    → NoNul line
    → Packed m p es used
    → Packed (store_string m used line) p (es ++ line ∷ []) (used + length line + 1)
Packed-store_string [] m p used line n h =
    subst
      (λ x. IsString (store_string m x line) p line × (suc (p + length line) ≡ x + length line + 1))
      h (store_string-IsString line m p n, omega arith)
Packed-store_string (e ∷ es) m p used line n h = (
  IsString-SameBelow e m (store_string m used line) p used
      (omega (arith, Packed-size es m (suc (p + length e)) used h.1))
      (store_string-SameBelow line m used used (omega arith)) h.0,
  Packed-store_string es m (suc (p + length e)) used line n h.1,
)

-- the entries behind `cli_history_add`
abbrev pub HoldsEntries : List Bytes → Option History → Type 0
HoldsEntries es none = ⊥
HoldsEntries es (some sh) = Holding sh es

appended :
    (es : List Bytes) (line : Bytes) (sh : History) (o : Option (Mem × ℕ))
    → NoNul line
    → Room (length line) es o
    → HoldsEntries (es ++ line ∷ []) (append_entry line sh o)
appended es line sh none n h = h
appended es line sh (some (m, used)) n (p, fits) = record {
  packed =
      subst (λ x. Packed (store_string m used line) 0 (es ++ line ∷ []) x) (omega arith)
        (Packed-store_string es m 0 used line n p);
  within = omega arith;
}

evicted :
    (es : List Bytes) (line : Bytes) (f : ℕ) (sh : History)
    → Holding sh es
    → NoNul line
    → rejected (length line) ≡ false
    → length es < f
    → HoldsEntries (evict (length line) es ++ line ∷ []) (add_unless f line sh (some false))
evicted es line f sh h n r lt =
    appended (evict (length line) es) line sh (evict_loop f (length line) sh.hist sh.hist_used) n
      (evict_loop-Room es f (length line) sh.hist sh.hist_used h.packed h.within (ground arith) lt)

-- whether the last entry is the line
abbrev pub last_is : Bool → List Bytes → Bytes → Bool
last_is b [] line = b
last_is b (e ∷ es) line = last_is (bytes_eq e line) es line

last_is-concat :
    (older : List Bytes) (e line : Bytes) (b : Bool)
    → last_is b (older ++ e ∷ []) line ≡ bytes_eq e line
last_is-concat [] e line b = refl
last_is-concat (d ∷ older) e line b = last_is-concat older e line (bytes_eq d line)

-- A line that can be recalled: it has a character, and fits a buffer of 256 bytes with its NUL.
abbrev pub is_recallable : Bytes → Bool
is_recallable line = ltb 0 (length line) && ltb (length line) 256

abbrev pub AreRecallable : List Bytes → Type 0
AreRecallable [] = Unit {0}
AreRecallable (e ∷ es) = (0 < length e) × (length e < 256) × AreRecallable es

-- The entries when a line is recorded: an empty or overlong line and a repeat of the newest entry
-- leave them; otherwise the oldest go until the line fits, and it becomes the newest.
unfoldable pub recorded : List Bytes → Bytes → List Bytes
recorded es line =
    if not (is_recallable line)
    then es
    else if last_is false es line
    then es
    else evict (length line) es ++ line ∷ []

rejected_lem : (l : ℕ) → rejected l ≡ not (ltb 0 l && ltb l 256)
rejected_lem l = ground arith

evict-AreRecallable : (l : ℕ) (es : List Bytes) → AreRecallable es → AreRecallable (evict l es)
unfolding evict
evict-AreRecallable l [] h = tt
evict-AreRecallable l (e ∷ es) h =
    pick (ltb history_buffer_size (size (e ∷ es) + l + 1)) (evict-AreRecallable l es h.2)
  where
    pick :
        (b : Bool) → AreRecallable (evict l es) → AreRecallable (if b then evict l es else e ∷ es)
    pick true k = k
    pick false k = h

concat-AreRecallable :
    (es : List Bytes) (line : Bytes)
    → AreRecallable es
    → 0 < length line
    → length line < 256
    → AreRecallable (es ++ line ∷ [])
concat-AreRecallable [] line h l u = (l, u, tt)
concat-AreRecallable (e ∷ es) line h l u = (h.0, h.1, concat-AreRecallable es line h.2 l u)

recallable_bounds : (n : ℕ) → not (ltb 0 n && ltb n 256) ≡ false → (0 < n) × (n < 256)
recallable_bounds n h = (ground arith, ground arith)

recorded-AreRecallable :
    (es : List Bytes) (line : Bytes) → AreRecallable es → AreRecallable (recorded es line)
unfolding recorded
recorded-AreRecallable es line h = pick (not (is_recallable line)) (last_is false es line) refl
  where
    pick :
        (a b : Bool)
        → not (is_recallable line) ≡ a
        → AreRecallable (if a then es else if b then es else evict (length line) es ++ line ∷ [])
    pick true b e = h
    pick false true e = h
    pick false false e =
        concat-AreRecallable (evict (length line) es) line (evict-AreRecallable (length line) es h)
          (recallable_bounds (length line) e).0 (recallable_bounds (length line) e).1

last_cases :
    (es : List Bytes) → (es ≡ []) ⊎ ((older : List Bytes) × (e : Bytes) × (es ≡ older ++ e ∷ []))
last_cases [] = inl refl
last_cases (d ∷ es) = elim (last_cases es) [
  | inl e ↦ inr ([], d, ap (λ x. d ∷ x) e)
  | inr (older, e, h) ↦ inr (d ∷ older, e, ap (λ x. d ∷ x) h)
]

unless-recorded :
    (b : Bool) (es : List Bytes) (line : Bytes) (f : ℕ) (sh : History)
    → Holding sh es
    → NoNul line
    → rejected (length line) ≡ false
    → length es < f
    → HoldsEntries
        (if b then es else evict (length line) es ++ line ∷ [])
        (add_unless f line sh (some b))
unless-recorded true es line f sh h n r lt = h
unless-recorded false es line f sh h n r lt = evicted es line f sh h n r lt

add_to_entries :
    (older : List Bytes) (e line : Bytes) (f : ℕ) (sh : History)
    → Holding sh (older ++ e ∷ [])
    → NoNul line
    → rejected (length line) ≡ false
    → length (older ++ e ∷ []) < f
    → HoldsEntries
        (if last_is false (older ++ e ∷ []) line
          then older ++ e ∷ []
          else evict (length line) (older ++ e ∷ []) ++ line ∷ [])
        (add_unless f line sh (
          if ltb 0 sh.hist_used
          then is_repeat line sh (walk_loop f sh.hist sh.hist_used sh.hist_used 0)
          else some false))
add_to_entries older e line f sh h n r lt =
    rw
      (
        last_is-concat older e line false,
        lt→ltb 0 sh.hist_used (omega (arith, total, size-append older (e ∷ []))),
      )
      (rw
        (walk_lem older e [] f sh.hist 0 sh.hist_used sh.hist_used h.packed h.within
          (omega (arith, total, size-append older (e ∷ [])))
          (omega (arith, length-append older (e ∷ []))))
        (rw (same_string_lem line e sh.hist (0 + size older) n entry.0)
          (unless-recorded (bytes_eq e line) (older ++ e ∷ []) line f sh h n r lt)))
  where
    total : sh.hist_used ≡ 0 + size (older ++ e ∷ [])
    total = Packed-size (older ++ e ∷ []) sh.hist 0 sh.hist_used h.packed

    entry :
        IsString sh.hist (0 + size older) e
        × Packed sh.hist (suc (0 + size older + length e)) [] sh.hist_used
    entry = Packed-entry older e [] sh.hist 0 sh.hist_used h.packed

-- the entries behind an addition
cli_history_add-HoldsEntries :
    (es : List Bytes) (line : Bytes) (f : ℕ) (sh : History)
    → Holding sh es
    → NoNul line
    → length es < f
    → HoldsEntries (recorded es line) (cli_history_add f sh line)
unfolding cli_history_add recorded
cli_history_add-HoldsEntries es line f sh h n lt = elim (Bool-cases (rejected (length line))) [
  | inl r ↦ rw (r, sym (rejected_lem (length line)) ∙ r) h
  | inr r ↦
      rw (r, sym (rejected_lem (length line)) ∙ r)
        (elim (last_cases es) [
          | inl e ↦
              subst
                (λ x.
                  HoldsEntries
                    (if last_is false x line then x else evict (length line) x ++ line ∷ [])
                    (add_unless f line sh (
                      if ltb 0 sh.hist_used
                      then is_repeat line sh (walk_loop f sh.hist sh.hist_used sh.hist_used 0)
                      else some false)))
                (sym e)
                (rw (le→ltb 0 sh.hist_used (omega (arith, rw e at h.packed)))
                  (evicted [] line f sh (subst (Holding sh) e h) n r (omega (arith, ap length e))))
          | inr (older, e, k) ↦
              subst
                (λ x.
                  HoldsEntries
                    (if last_is false x line then x else evict (length line) x ++ line ∷ [])
                    (add_unless f line sh (
                      if ltb 0 sh.hist_used
                      then is_repeat line sh (walk_loop f sh.hist sh.hist_used sh.hist_used 0)
                      else some false)))
                (sym k)
                (add_to_entries older e line f sh (subst (Holding sh) k h) n r
                  (omega (arith, ap length k)))
        ])
]

-- With more fuel than the ring has entries, all of 1 to 255 bytes, and for a line without NUL: `cli_history_add`
-- returns, and the ring then holds the entries that `recorded` gives, within its
-- CLI_HISTORY_BUFFER_SIZE bytes. These are again of 1 to 255 bytes, so that with its NUL each fits the line buffer of
-- CLI_CMD_BUFFER_SIZE bytes that it is recalled to.
pub cli_history_add-recorded :
    (es : List Bytes) (line : Bytes) (f : ℕ) (sh : History)
    → Holding sh es
    → NoNul line
    → length es < f
    → AreRecallable es
    → HoldsEntries (recorded es line) (cli_history_add f sh line) × AreRecallable (recorded es line)
cli_history_add-recorded es line f sh h n lt r =
    (cli_history_add-HoldsEntries es line f sh h n lt, recorded-AreRecallable es line r)
