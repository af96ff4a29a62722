-- ===== src/Complete/Resolve.antt =====
-- Tab as a whole: it returns, keeps the editor safe, and extends the text.
use stm32f746g_disco.Prelude.{
  ℕ, zero, suc, ◌+◌, ◌-◌, ◌≤◌, ◌<◌, ◌≡◌, refl, sym, ap, ◌∙◌, Bool, true, false, Option, none, some,
  List, [], ◌∷◌, ◌++◌, append-nil, arith, ◌==◌, if◌then◌else◌, ne→==, ==→eq, some_eq, absurd_bool,
  some-none, length, set, take, drop, Bytes,
}
use stm32f746g_disco.Memory.{Mem, bytes_at}
use stm32f746g_disco.Parse.Command.{Cmd, Subcommands, leaf, group, Cmds, subcmds, lookup}
use stm32f746g_disco.Edit.{cmd_buffer_size, Editor}
use stm32f746g_disco.Edit.Bounds.{Safe}
use stm32f746g_disco.Complete.{
  is_blank, complete_word_start, skip_gap, after_word, split_word, next_ro_token, resolve_from,
  resolve_set, Found, scan_candidates, insert_at_cursor, Answer, bell, redraw, disarm, arm, rung,
  separated, complete_one, not_extended, complete_many, complete_in, complete_with,
  cli_tab_complete,
}
use stm32f746g_disco.Complete.Scan.{extension}
use stm32f746g_disco.Complete.Insert.{insert-Safe, text, before, behind, insert-text, text_parts}

skip_gap-le : (d : Bytes) → length (skip_gap d) ≤ length d
skip_gap-le [] = omega arith
skip_gap-le (c ∷ d) = pick (is_blank c) (skip_gap-le d)
  where
    pick :
        (b : Bool)
        → length (skip_gap d) ≤ length d
        → length (elim b as (λ x. Bytes) [ true ↦ skip_gap d | false ↦ c ∷ d ]) ≤ suc (length d)
    pick true h = omega arith
    pick false h = omega arith

after_word-le : (d : Bytes) → length (after_word d) ≤ length d
after_word-le [] = omega arith
after_word-le (c ∷ d) = pick (is_blank c) (after_word-le d)
  where
    pick :
        (b : Bool)
        → length (after_word d) ≤ length d
        → length (elim b as (λ x. Bytes) [ true ↦ c ∷ d | false ↦ after_word d ]) ≤ suc (length d)
    pick true h = omega arith
    pick false h = omega arith

-- What is left starts with a byte that is not blank.
skip_gap_head : (d : Bytes) (c : ℕ) (r : Bytes) → skip_gap d ≡ c ∷ r → is_blank c ≡ false
skip_gap_head [] c r e = absurd (nil_cons e)
  where
    nil_cons : [] ≡ c ∷ r → ⊥
    nil_cons e = cc
skip_gap_head (a ∷ d) c r e = pick (is_blank a) refl e (skip_gap_head d c r)
  where
    pick :
        (b : Bool)
        → is_blank a ≡ b
        → elim b as (λ x. Bytes) [ true ↦ skip_gap d | false ↦ a ∷ d ] ≡ c ∷ r
        → (skip_gap d ≡ c ∷ r → is_blank c ≡ false)
        → is_blank c ≡ false
    pick true h e ih = ih e
    pick false h e ih = ap is_blank (sym (heads e)) ∙ h
      where
        heads : a ∷ d ≡ c ∷ r → a ≡ c
        heads e = cc

-- A word takes at least one byte away.
token-shorter : (d : Bytes) (w : Bytes × Bytes) → next_ro_token d ≡ some w → length w.1 < length d
token-shorter d w e = of_gap (skip_gap d) refl e
  where
    shorter : (c : ℕ) (r : Bytes) → is_blank c ≡ false → length (after_word (c ∷ r)) ≤ length r
    shorter c r h = rw (h, after_word) (after_word-le r)

    of_gap : (g : Bytes) → skip_gap d ≡ g → split_word g ≡ some w → length w.1 < length d
    of_gap [] h e = absurd (some-none (sym e))
    of_gap (c ∷ r) h e = omega (
      arith,
      ap (λ x. length x.1) (some_eq e),
      shorter c r (skip_gap_head d c r h),
      ap length h,
      skip_gap-le d,
    )

resolve_from-returns :
    (f : ℕ) (set : Cmds) (d : Bytes)
    → length d < f
    → (o : Option Cmds) × (resolve_from f set d ≡ some o)
unfolding resolve_from
resolve_from-returns zero set d h = absurd (omega arith)
resolve_from-returns (suc f) set d h =
    of_token (next_ro_token d) refl
      (λ cs w e. resolve_from-returns f cs w.1 (omega (arith, token-shorter d w e)))
  where
    of_set :
        (w : Bytes × Bytes) (s : Subcommands)
        → ((cs : Cmds) → (o : Option Cmds) × (resolve_from f cs w.1 ≡ some o))
        → (o : Option Cmds) × ((elim s as (λ x. Option (Option Cmds)) [
          | leaf ↦ some none
          | group cs ↦ resolve_from f cs w.1
        ])
            ≡ some o)
    of_set w leaf ih = (none, refl)
    of_set w (group cs) ih = ih cs

    of_match :
        (w : Bytes × Bytes) (m : Option Cmd)
        → ((cs : Cmds) → (o : Option Cmds) × (resolve_from f cs w.1 ≡ some o))
        → (o : Option Cmds) × ((elim m as (λ x. Option (Option Cmds)) [
          | none ↦ some none
          | some c ↦ elim (subcmds c) as (λ x. Option (Option Cmds)) [
            | leaf ↦ some none
            | group cs ↦ resolve_from f cs w.1
          ]
        ])
            ≡ some o)
    of_match w none ih = (none, refl)
    of_match w (some c) ih = of_set w (subcmds c) ih

    of_token :
        (t : Option (Bytes × Bytes))
        → next_ro_token d ≡ t
        → ((cs : Cmds) (w : Bytes × Bytes)
            → next_ro_token d ≡ some w
            → (o : Option Cmds) × (resolve_from f cs w.1 ≡ some o))
        → (o : Option Cmds) × ((elim t as (λ x. Option (Option Cmds)) [
          | none ↦ some (some set)
          | some w ↦ elim (lookup set w.0) as (λ x. Option (Option Cmds)) [
            | none ↦ some none
            | some c ↦ elim (subcmds c) as (λ x. Option (Option Cmds)) [
              | leaf ↦ some none
              | group cs ↦ resolve_from f cs w.1
            ]
          ]
        ])
            ≡ some o)
    of_token none e ih = (some set, refl)
    of_token (some w) e ih = of_match w (lookup set w.0) (λ cs. ih cs w e)

complete_word_start-le : (m : Mem) (i : ℕ) → complete_word_start m i ≤ i
complete_word_start-le m zero = omega arith
complete_word_start-le m (suc i) = pick (is_blank (m i)) (complete_word_start-le m i)
  where
    pick :
        (b : Bool)
        → complete_word_start m i ≤ i
        → elim b as (λ x. ℕ) [ true ↦ suc i | false ↦ complete_word_start m i ] ≤ suc i
    pick true h = omega arith
    pick false h = omega arith

length-bytes_at : (m : Mem) (p n : ℕ) → length (bytes_at m p n) ≡ n
length-bytes_at m p zero = refl
length-bytes_at m p (suc n) = ap suc (length-bytes_at m (suc p) n)

separated-Safe : (m p : Mem) (r : Bool × Editor) → Safe m p r.1 → Safe m p (separated r).1
separated-Safe m p (false, e) x = x
separated-Safe m p (true, e) x = pick (e.cur == e.len)
  where
    outcome : Bool → List Answer × Editor
    outcome b =
        if b
        then (rung (insert_at_cursor (b' ' ∷ []) e).0, (insert_at_cursor (b' ' ∷ []) e).1)
        else ([], e)

    pick : (b : Bool) → Safe m p (outcome b).1
    pick true = insert-Safe m p (b' ' ∷ []) e x
    pick false = x

disarm-Safe : (m p : Mem) (e : Editor) → Safe m p e → Safe m p (disarm e)
disarm-Safe m p e x = x

not_extended-Safe :
    (m p : Mem) (lcp : ℕ) (armed : Bool) (e : Editor)
    → Safe m p e
    → Safe m p (not_extended lcp armed e).1
not_extended-Safe m p lcp true e x = x
not_extended-Safe m p lcp false e x = pick (lcp == 0)
  where
    outcome : Bool → List Answer × Editor
    outcome b = if b then (bell ∷ [], arm e) else ([], arm e)

    pick : (b : Bool) → Safe m p (outcome b).1
    pick true = x
    pick false = x

complete_many-Safe :
    (m p : Mem) (w : Bytes) (s : Found) (e : Editor) → Safe m p e → Safe m p (complete_many w s e).1
complete_many-Safe m p w s e x =
    pick (s.lcp == 0) (insert_at_cursor (take s.lcp (drop (length w) s.first)) e).0
  where
    e' : Editor
    e' = (insert_at_cursor (take s.lcp (drop (length w) s.first)) e).1

    outcome : Bool → Bool → List Answer × Editor
    outcome z ok =
        if z
        then not_extended 0 e.tab_list_armed e
        else (if ok then (redraw ∷ [], arm e') else (
          rung false ++ (not_extended s.lcp e.tab_list_armed e).0,
          (not_extended s.lcp e.tab_list_armed e).1,
        ))

    pick : (z ok : Bool) → Safe m p (outcome z ok).1
    pick true ok = not_extended-Safe m p 0 e.tab_list_armed e x
    pick false true = insert-Safe m p (take s.lcp (drop (length w) s.first)) e x
    pick false false = not_extended-Safe m p s.lcp e.tab_list_armed e x

complete_in-Safe :
    (m p : Mem) (w : Bytes) (e : Editor) (o : Option Cmds)
    → Safe m p e
    → Safe m p (complete_in w e o).1
complete_in-Safe m p w e none x = x
complete_in-Safe m p w e (some set) x = pick (s.count == 0) (s.count == 1)
  where
    s : Found
    s = scan_candidates set w

    outcome : Bool → Bool → List Answer × Editor
    outcome a b =
        if a
        then (bell ∷ [], disarm e)
        else (if b then complete_one w s.first e else complete_many w s e)

    pick : (a b : Bool) → Safe m p (outcome a b).1
    pick true b = x
    pick false true =
        separated-Safe m p (insert_at_cursor (drop (length w) s.first) (disarm e))
          (insert-Safe m p (drop (length w) s.first) (disarm e) x)
    pick false false = complete_many-Safe m p w s e x

-- With fuel of at least the size of the line buffer a Tab returns, whatever the commands are, and the
-- editor it returns is safe.
pub tab-returns :
    (m p : Mem) (f : ℕ) (root : Cmds) (e : Editor)
    → Safe m p e
    → cmd_buffer_size ≤ f
    → (r : List Answer × Editor) × (cli_tab_complete f root e ≡ some r) × Safe m p r.1
tab-returns m p f root e x h =
    (complete_in w e o.0, ap (complete_with w e) o.1, complete_in-Safe m p w e o.0 x)
  where
    ws : ℕ
    ws = complete_word_start e.line e.cur

    w : Bytes
    w = bytes_at e.line ws (e.cur - ws)

    o : (o : Option Cmds) × (resolve_set f root e.line ws ≡ some o)
    o = resolve_from-returns f root (bytes_at e.line 0 ws) (
        omega (
          arith,
          length-bytes_at e.line 0 ws,
          complete_word_start-le e.line e.cur,
          x.within,
          x.room,
          h,
        ))

-- the word that is completed
abbrev pub word : Editor → Bytes
word e = let ws = complete_word_start e.line e.cur in bytes_at e.line ws (e.cur - ws)

many-text :
    (m p : Mem) (w : Bytes) (cs : Cmds) (e : Editor)
    → Safe m p e
    → e.len + length (extension w cs) ≤ cmd_buffer_size - 1
    → text (complete_many w (scan_candidates cs w) e).1 ≡ before e ++ extension w cs ++ behind e
many-text m p w cs e x h = pick (s.lcp == 0) (insert_at_cursor (extension w cs) e).0 refl put.0
  where
    s : Found
    s = scan_candidates cs w

    e' : Editor
    e' = (insert_at_cursor (extension w cs) e).1

    put :
        ((insert_at_cursor (extension w cs) e).0 ≡ true)
        × (text e' ≡ before e ++ extension w cs ++ behind e)
        × (before e' ≡ before e ++ extension w cs)
    put = insert-text m p (extension w cs) e x h

    outcome : Bool → Bool → List Answer × Editor
    outcome z ok =
        if z
        then not_extended 0 e.tab_list_armed e
        else (if ok then (redraw ∷ [], arm e') else (
          rung false ++ (not_extended s.lcp e.tab_list_armed e).0,
          (not_extended s.lcp e.tab_list_armed e).1,
        ))

    unchanged : (b : Bool) → text (not_extended 0 b e).1 ≡ text e
    unchanged true = refl
    unchanged false = refl

    pick :
        (z ok : Bool)
        → (s.lcp == 0) ≡ z
        → ok ≡ true
        → text (outcome z ok).1 ≡ before e ++ extension w cs ++ behind e
    pick true ok z k =
        unchanged e.tab_list_armed
        ∙ text_parts e x.within
        ∙ ap (λ xs. xs ++ behind e) (sym (append-nil (before e)))
        ∙ ap (λ l. before e ++ take l (drop (length w) s.first) ++ behind e) (sym (==→eq s.lcp 0 z))
    pick false true z k = put.1
    pick false false z k = absurd_bool k

-- Where several commands of the set have the word as a prefix and the line has room, the text behind
-- a Tab has the longest text that they all go on with put in at the cursor.
pub tab-extends :
    (m p : Mem) (f : ℕ) (root cs : Cmds) (e : Editor)
    → Safe m p e
    → resolve_set f root e.line (complete_word_start e.line e.cur) ≡ some (some cs)
    → 1 < (scan_candidates cs (word e)).count
    → e.len + length (extension (word e) cs) ≤ cmd_buffer_size - 1
    → (r : List Answer × Editor) × (cli_tab_complete f root e ≡ some r)
      × (text r.1 ≡ before e ++ extension (word e) cs ++ behind e)
tab-extends m p f root cs e x q n h = (
  complete_in (word e) e (some cs),
  ap (complete_with (word e) e) q,
  rw (ne→== s.count 0 (λ z. absurd (omega arith)), ne→== s.count 1 (λ z. absurd (omega arith)))
      (many-text m p (word e) cs e x h),
)
  where
    s : Found
    s = scan_candidates cs (word e)
