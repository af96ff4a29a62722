-- ===== src/History/Recall.antt =====
-- Up and down the history: which entry is recalled.
use stm32f746g_disco.Prelude.{
  ℕ, suc, ◌+◌, ◌≤◌, ◌<◌, ◌≡◌, refl, sym, ap, ◌∙◌, subst, true, false, Option, none, some, List, [],
  ◌∷◌, ◌++◌, append_assoc, arith, ◌==◌, eq→==, ne→==, lt→ltb, le→ltb, length, Bytes,
}
use stm32f746g_disco.Memory.{Mem, write, IsString}
use stm32f746g_disco.History.{
  History, copy_front, cmd_buffer_size, history_buffer_size, hist_next_off, walk_loop, hist_load,
  recall, cli_history_prev, cli_history_next,
}
use stm32f746g_disco.History.Packed.{
  Packed, size, size-append, Packed-size, next_off_lem, walk_lem, strlen_lem, copy_front-IsString,
  Packed-entry,
}

-- The instance's ring holds the entries.
pub record Holding (sh : History) (es : List Bytes) : Type 0 where
  pub packed : Packed sh.hist 0 es sh.hist_used
  pub within : sh.hist_used ≤ history_buffer_size

-- The entry at hand: `older` stand before it and `newer` behind it.
pub record At (sh : History) (older : List Bytes) (e : Bytes) (newer : List Bytes) : Type 0 where
  pub holding : Holding sh (older ++ e ∷ newer)
  pub on : sh.hist_nav_on ≡ true
  pub nav : sh.hist_nav ≡ size older

-- The line buffer holds exactly this text, with the cursor at its end.
pub record Shows (sh : History) (e : Bytes) : Type 0 where
  pub text : IsString sh.line 0 e
  pub len_is : sh.len ≡ length e
  pub cur_is : sh.cur ≡ length e

-- the result of a recall: the entry is at hand and shown, and the ring is the same
abbrev pub Recalled : List Bytes → Bytes → List Bytes → Option History → Type 0
Recalled older e newer none = ⊥
Recalled older e newer (some sh) = At sh older e newer × Shows sh e

hist_load-Recalled :
    (older : List Bytes) (e : Bytes) (newer : List Bytes) (f : ℕ) (sh : History)
    → Holding sh (older ++ e ∷ newer)
    → sh.hist_nav_on ≡ true
    → sh.hist_nav ≡ size older
    → length e < f
    → Recalled older e newer (hist_load f (size older) sh)
unfolding hist_load
hist_load-Recalled older e newer f sh h on nav lt =
    rw (strlen_lem e f sh.hist (size older) str lt, hist_load)
      (
        record { holding = record { packed = h.packed; within = h.within }; on = on; nav = nav },
        record {
          text =
              copy_front-IsString e sh.line sh.hist (size older) (length e + 1) 0
                (subst (λ x. IsString sh.hist x e) (omega arith) str) (omega arith);
          len_is = omega (arith, small);
          cur_is = omega (arith, small);
        },
      )
  where
    entry :
        IsString sh.hist (0 + size older) e
        × Packed sh.hist (suc (0 + size older + length e)) newer sh.hist_used
    entry = Packed-entry older e newer sh.hist 0 sh.hist_used h.packed

    str : IsString sh.hist (size older) e
    str = subst (λ x. IsString sh.hist x e) (omega arith) entry.0

    small : length e < history_buffer_size
    small = omega (
      arith,
      Packed-size newer sh.hist (suc (0 + size older + length e)) sh.hist_used entry.1,
      h.within,
    )

-- Behind the 256 bytes of the line buffer the memory is as it was.
abbrev pub KeepsBeyond : Mem → Option History → Type 0
KeepsBeyond m none = ⊥
KeepsBeyond m (some sh) = (i : ℕ) → cmd_buffer_size ≤ i → sh.line i ≡ m i

-- The recall of an entry of less than CLI_CMD_BUFFER_SIZE bytes, with more fuel than it is long, returns and
-- writes nothing behind the line buffer.
pub hist_load-KeepsBeyond :
    (older : List Bytes) (e : Bytes) (newer : List Bytes) (f : ℕ) (sh : History)
    → Holding sh (older ++ e ∷ newer)
    → length e < cmd_buffer_size
    → length e < f
    → KeepsBeyond sh.line (hist_load f (size older) sh)
unfolding hist_load copy_front
hist_load-KeepsBeyond older e newer f sh h short lt =
    rw (strlen_lem e f sh.hist (size older) str lt, hist_load)
      (λ i b. rw (le→ltb i (length e + 1) (omega (arith, short, b))) refl)
  where
    str : IsString sh.hist (size older) e
    str =
        subst (λ x. IsString sh.hist x e) (omega arith)
          (Packed-entry older e newer sh.hist 0 sh.hist_used h.packed).0

moved_to :
    (older : List Bytes) (e : Bytes) (newer : List Bytes) (f : ℕ) (sh : History)
    → Holding sh (older ++ e ∷ newer)
    → length e < f
    → Recalled older e newer (recall f sh (some (size older)))
moved_to older e newer f sh h lt =
    hist_load-Recalled older e newer f (record sh { hist_nav = size older; hist_nav_on = true })
      (record { packed = h.packed; within = h.within }) refl refl lt

used-ne-zero :
    (older : List Bytes) (e : Bytes) (newer : List Bytes) (sh : History)
    → Holding sh (older ++ e ∷ newer)
    → (sh.hist_used == 0) ≡ false
used-ne-zero older e newer sh h = ne→== sh.hist_used 0 (
    omega (
      arith,
      Packed-size (older ++ e ∷ newer) sh.hist 0 sh.hist_used h.packed,
      size-append older (e ∷ newer),
    ))

-- From the live line, `cli_history_prev` recalls the newest entry.
pub prev_newest :
    (older : List Bytes) (e : Bytes) (f : ℕ) (sh : History)
    → Holding sh (older ++ e ∷ [])
    → sh.hist_nav_on ≡ false
    → length older < f
    → length e < f
    → Recalled older e [] (cli_history_prev f sh)
unfolding cli_history_prev
prev_newest older e f sh h off lo le =
    rw (used-ne-zero older e [] sh h, off) (rw found (moved_to older e [] f sh h le))
  where
    found : walk_loop f sh.hist sh.hist_used sh.hist_used 0 ≡ some (size older)
    found =
        walk_lem older e [] f sh.hist 0 sh.hist_used sh.hist_used h.packed h.within
          (omega (
            arith,
            Packed-size (older ++ e ∷ []) sh.hist 0 sh.hist_used h.packed,
            size-append older (e ∷ []),
          ))
          lo
        ∙ ap some (omega arith)

-- From an entry that is not the oldest, `cli_history_prev` recalls the one before it.
pub prev_older :
    (older : List Bytes) (d e : Bytes) (newer : List Bytes) (f : ℕ) (sh : History)
    → At sh (older ++ d ∷ []) e newer
    → length older < f
    → length d < f
    → Recalled older d (e ∷ newer) (cli_history_prev f sh)
unfolding cli_history_prev
prev_older older d e newer f sh a lo le =
    rw
      (
        used-ne-zero older d (e ∷ newer) sh h,
        a.on,
        ne→== sh.hist_nav 0 (omega (arith, a.nav, size-append older (d ∷ []))),
      )
      (rw found (moved_to older d (e ∷ newer) f sh h le))
  where
    h : Holding sh (older ++ d ∷ e ∷ newer)
    h = subst (Holding sh) (append_assoc older (d ∷ []) (e ∷ newer)) a.holding

    found : walk_loop f sh.hist sh.hist_used sh.hist_nav 0 ≡ some (size older)
    found =
        walk_lem older d (e ∷ newer) f sh.hist 0 sh.hist_used sh.hist_nav h.packed h.within
          (omega (arith, a.nav, size-append older (d ∷ []))) lo
        ∙ ap some (omega arith)

-- At the oldest entry, `cli_history_prev` changes nothing.
pub prev_oldest :
    (e : Bytes) (newer : List Bytes) (f : ℕ) (sh : History)
    → At sh [] e newer
    → cli_history_prev f sh ≡ some sh
unfolding cli_history_prev
prev_oldest e newer f sh a =
    rw (used-ne-zero [] e newer sh a.holding, a.on, eq→== sh.hist_nav 0 a.nav)

next_off-At :
    (older : List Bytes) (e : Bytes) (newer : List Bytes) (sh : History)
    → At sh older e newer
    → hist_next_off sh.hist sh.hist_used sh.hist_nav ≡ size (older ++ e ∷ [])
next_off-At older e newer sh a =
    let entry = Packed-entry older e newer sh.hist 0 sh.hist_used a.holding.packed in
    rw a.nav (
      next_off_lem e sh.hist (size older) sh.hist_used
        (subst (λ x. IsString sh.hist x e) (omega arith) entry.0)
        (omega
          (arith, Packed-size newer sh.hist (suc (0 + size older + length e)) sh.hist_used entry.1))
        a.holding.within
      ∙ omega (arith, size-append older (e ∷ [])))

-- From an entry that is not the newest, `cli_history_next` recalls the one behind it.
pub next_newer :
    (older : List Bytes) (d e : Bytes) (newer : List Bytes) (f : ℕ) (sh : History)
    → At sh older d (e ∷ newer)
    → length e < f
    → Recalled (older ++ d ∷ []) e newer (cli_history_next f sh)
unfolding cli_history_next
next_newer older d e newer f sh a lt =
    rw
      (
        a.on,
        next_off-At older d (e ∷ newer) sh a,
        lt→ltb (size (older ++ d ∷ [])) sh.hist_used below,
      )
      (hist_load-Recalled (older ++ d ∷ []) e newer f there moved refl refl lt)
  where
    below : size (older ++ d ∷ []) < sh.hist_used
    below = omega (
      arith,
      Packed-size (older ++ d ∷ e ∷ newer) sh.hist 0 sh.hist_used a.holding.packed,
      size-append older (d ∷ e ∷ newer),
      size-append older (d ∷ []),
    )

    there : History
    there = record sh { hist_nav = size (older ++ d ∷ []); hist_nav_on = true }

    moved : Holding there ((older ++ d ∷ []) ++ e ∷ newer)
    moved = record {
      packed =
          subst (λ x. Packed sh.hist 0 x sh.hist_used)
            (sym (append_assoc older (d ∷ []) (e ∷ newer))) a.holding.packed;
      within = a.holding.within;
    }

-- From the newest entry, `cli_history_next` goes back to an empty live line.
pub next_live :
    (older : List Bytes) (e : Bytes) (f : ℕ) (sh : History)
    → At sh older e []
    → cli_history_next f sh
      ≡ some (record sh { hist_nav_on = false; len = 0; cur = 0; line = write sh.line 0 0 })
unfolding cli_history_next
next_live older e f sh a = rw (
  a.on,
  next_off-At older e [] sh a,
  le→ltb (size (older ++ e ∷ [])) sh.hist_used
      (omega (arith, Packed-size (older ++ e ∷ []) sh.hist 0 sh.hist_used a.holding.packed)),
)

abbrev pub then_next : ℕ → Option History → Option History
then_next f none = none
then_next f (some sh) = cli_history_next f sh

-- From an entry that is not the oldest, `cli_history_prev` and then `cli_history_next` come back to it:
-- the same entry is at hand and shown, in the same ring.
pub next-prev :
    (older : List Bytes) (d e : Bytes) (newer : List Bytes) (f : ℕ) (sh : History)
    → At sh (older ++ d ∷ []) e newer
    → length older < f
    → length d < f
    → length e < f
    → Recalled (older ++ d ∷ []) e newer (then_next f (cli_history_prev f sh))
next-prev older d e newer f sh a lo ld le =
    go (cli_history_prev f sh) (prev_older older d e newer f sh a lo ld)
  where
    go :
        (o : Option History)
        → Recalled older d (e ∷ newer) o
        → Recalled (older ++ d ∷ []) e newer (then_next f o)
    go none r = absurd r
    go (some t) r = next_newer older d e newer f t r.0 le
