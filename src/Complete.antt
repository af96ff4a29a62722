-- ===== src/Complete.antt =====
-- shell/core/cli_complete.c: completion by Tab. The set of commands to complete against is found from
-- the words before the cursor; what it draws is left out.
pub mod Scan
pub mod Insert
pub mod Resolve
mod Tests
use stm32f746g_disco.Prelude.{
  ℕ, zero, suc, ◌+◌, ◌-◌, ◌*◌, ◌/◌, ◌%◌, ◌^◌, ◌≤◌, ◌<◌, min, max, bit_and, bit_or, bit_xor, ◌≡◌,
  refl, sym, ap, ap₂, ◌∙◌, subst, ◌≢◌, ◌↔◌, ◌⊎◌, inl, inr, Bool, true, false, not, ◌&&◌, ◌||◌,
  Option, none, some, List, [], ◌∷◌, ◌++◌, map, append_assoc, append-nil, arith, ltb, leb, ◌==◌,
  if◌then◌else◌, eq→==, ne→==, ==_iff, lt→ltb, le→ltb, tests, leb→le, leb→lt, ltb→lt, ltb→le, ==→eq,
  ==→ne, Bool-cases, Option-cases, some_eq, absurd_bool, some-none, length, get_elem?, get_or, set,
  take, drop, replicate, length-append, length-set, length-take, length-drop, length-replicate,
  take-append-drop, get_or-set_self, get_or-set_ne, Bytes, codes, bytes_eq, bytes_eq_iff,
}
use stm32f746g_disco.Memory.{Mem, write, bytes_at}
use stm32f746g_disco.Parse.Command.{
  Cmd, Subcommands, leaf, group, Cmds, end, entry, name, subcmds, lookup,
}
use stm32f746g_disco.Edit.{cmd_buffer_size, Editor, memmove}

abbrev pub is_blank : ℕ → Bool
is_blank c = c == b' ' || c == 9

-- the start of the word that ends at index `i`
abbrev pub complete_word_start : Mem → ℕ → ℕ
complete_word_start m zero = zero
complete_word_start m (suc i) = elim (is_blank (m i)) [
  | true ↦ suc i
  | false ↦ complete_word_start m i
]

abbrev pub skip_gap : Bytes → Bytes
skip_gap [] = []
skip_gap (c ∷ d) = elim (is_blank c) [ true ↦ skip_gap d | false ↦ c ∷ d ]

abbrev pub word_of : Bytes → Bytes
word_of [] = []
word_of (c ∷ d) = elim (is_blank c) [ true ↦ [] | false ↦ c ∷ word_of d ]

abbrev pub after_word : Bytes → Bytes
after_word [] = []
after_word (c ∷ d) = elim (is_blank c) [ true ↦ c ∷ d | false ↦ after_word d ]

abbrev pub split_word : Bytes → Option (Bytes × Bytes)
split_word [] = none
split_word (c ∷ d) = some (word_of (c ∷ d), after_word (c ∷ d))

-- the next word of the rest of the region, and what is behind it
abbrev pub next_ro_token : Bytes → Option (Bytes × Bytes)
next_ro_token d = split_word (skip_gap d)

-- The set that the words lead to from a set on; `some none` where there is nothing to complete
-- against, `none` where the fuel runs out.
pub resolve_from : ℕ → Cmds → Bytes → Option (Option Cmds)
resolve_from zero set d = none
resolve_from (suc f) set d = elim (next_ro_token d) [
  | none ↦ some (some set)
  | some w ↦ elim (lookup set w.0) [
    | none ↦ some none
    | some m ↦ elim (subcmds m) [ leaf ↦ some none | group cs ↦ resolve_from f cs w.1 ]
  ]
]

-- `resolve_set` for the root set, on the line up to `ws`
abbrev pub resolve_set : ℕ → Cmds → Mem → ℕ → Option (Option Cmds)
resolve_set f root m ws = resolve_from f root (bytes_at m 0 ws)

-- `strncmp(name, prefix, plen) == 0` for a prefix of `plen` bytes, none of them NUL
abbrev pub starts_with : Bytes → Bytes → Bool
starts_with [] n = true
starts_with (c ∷ p) [] = false
starts_with (c ∷ p) (x ∷ n) = c == x && starts_with p n

-- how far two tails agree, at most `l` bytes
abbrev pub agreed : ℕ → Bytes → Bytes → ℕ
agreed zero xs ys = zero
agreed (suc l) [] ys = zero
agreed (suc l) (x ∷ xs) [] = zero
agreed (suc l) (x ∷ xs) (y ∷ ys) = elim (x == y) [ true ↦ suc (agreed l xs ys) | false ↦ zero ]

-- what `scan_candidates` has found: the number of candidates, the first, and `lcp`
pub record Found : Type 0 where
  pub count : ℕ
  pub first : Bytes
  pub lcp : ℕ

abbrev pub count_one : Bytes → Bytes → Found → Found
count_one p n s =
    if s.count == 0 then record { count = 1; first = n; lcp = length n - length p } else record s {
      count = s.count + 1;
      lcp = agreed s.lcp (drop (length p) n) (drop (length p) s.first);
    }

abbrev pub scan_set : Bytes → Cmds → Found → Found
scan_set p end s = s
scan_set p (entry c cs) s =
    scan_set p cs (if starts_with p (name c) then count_one p (name c) s else s)

abbrev pub scan_candidates : Cmds → Bytes → Found
scan_candidates set p = scan_set p set (record { count = 0; first = []; lcp = 0 })

-- `memcpy(&m[dst], src, n)`
abbrev pub memcpy : Mem → ℕ → Bytes → Mem
memcpy m dst src i = if leb dst i && ltb i (dst + length src) then get_or src (i - dst) 0 else m i

-- `insert_at_cursor`: whether it went in. Where it did not, it has rung the bell.
abbrev pub insert_at_cursor : Bytes → Editor → Bool × Editor
insert_at_cursor src e =
    let n = length src in
    if n == 0
    then (true, e)
    else (if ltb (cmd_buffer_size - 1) (e.len + n) then (false, e) else (
      true,
      record e {
        line =
            write (memcpy (memmove e.line (e.cur + n) e.cur (e.len - e.cur)) e.cur src)
              ((e.len + n) % 2 ^ 16) 0;
        len = (e.len + n) % 2 ^ 16;
        cur = (e.cur + n) % 2 ^ 16;
      },
    ))

-- what is sent to the terminal
pub data Answer : Type 0 where
  bell redraw list : Answer

abbrev pub disarm : Editor → Editor
disarm e = record e { tab_list_armed = false }

abbrev pub arm : Editor → Editor
arm e = record e { tab_list_armed = true }

abbrev pub rung : Bool → List Answer
rung went_in = if went_in then [] else bell ∷ []

-- the separator behind a single candidate, at the end of the line
abbrev pub separated : Bool × Editor → List Answer × Editor
separated (false, e) = (bell ∷ [], e)
separated (true, e) =
    let (ok, e') = insert_at_cursor (b' ' ∷ []) e in
    if e.cur == e.len then (rung ok, e') else ([], e)

abbrev pub complete_one : Bytes → Bytes → Editor → List Answer × Editor
complete_one p n e =
    let (sounds, e') = separated (insert_at_cursor (drop (length p) n) (disarm e)) in
    (sounds ++ (redraw ∷ []), e')

-- Two candidates or more: extend, or list behind a second Tab.
abbrev pub not_extended : ℕ → Bool → Editor → List Answer × Editor
not_extended lcp armed e =
    if armed then (list ∷ [], e) else (if lcp == 0 then (bell ∷ [], arm e) else ([], arm e))

abbrev pub complete_many : Bytes → Found → Editor → List Answer × Editor
complete_many p s e =
    let (ok, e') = insert_at_cursor (take s.lcp (drop (length p) s.first)) e in
    if s.lcp == 0
    then not_extended 0 e.tab_list_armed e
    else (if ok then (redraw ∷ [], arm e') else (
      rung false ++ (not_extended s.lcp e.tab_list_armed e).0,
      (not_extended s.lcp e.tab_list_armed e).1,
    ))

abbrev pub complete_in : Bytes → Editor → Option Cmds → List Answer × Editor
complete_in p e none = (bell ∷ [], disarm e)
complete_in p e (some set) =
    let s = scan_candidates set p in
    if s.count == 0
    then (bell ∷ [], disarm e)
    else (if s.count == 1 then complete_one p s.first e else complete_many p s e)

abbrev pub complete_with : Bytes → Editor → Option (Option Cmds) → Option (List Answer × Editor)
complete_with p e none = none
complete_with p e (some o) = some (complete_in p e o)

-- `cli_tab_complete` with the root set; `none` if the fuel runs out.
abbrev pub cli_tab_complete : ℕ → Cmds → Editor → Option (List Answer × Editor)
cli_tab_complete f root e =
    let ws = complete_word_start e.line e.cur in
    complete_with (bytes_at e.line ws (e.cur - ws)) e (resolve_set f root e.line ws)
