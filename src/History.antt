-- ===== src/History.antt =====
-- shell/core/cli_history.c: the command history of an instance, a byte ring with the entries packed
-- oldest first, each with its NUL.
pub mod Packed
pub mod Recall
pub mod Add
mod Tests
use stm32f746g_disco.Prelude.{
  ℕ, zero, suc, ◌+◌, ◌-◌, ◌*◌, ◌/◌, ◌%◌, ◌^◌, ◌≤◌, ◌<◌, min, max, bit_and, bit_or, bit_xor, ◌≡◌,
  refl, sym, ap, ap₂, ◌∙◌, subst, ◌≢◌, ◌↔◌, ◌⊎◌, inl, inr, Bool, true, false, not, ◌&&◌, ◌||◌,
  Option, none, some, List, [], ◌∷◌, ◌++◌, map, append_assoc, append-nil, arith, ltb, leb, ◌==◌,
  if◌then◌else◌, eq→==, ne→==, ==_iff, lt→ltb, le→ltb, tests, leb→le, leb→lt, ltb→lt, ltb→le, ==→eq,
  ==→ne, Bool-cases, Option-cases, some_eq, length, get_elem?, get_or, set, take, drop, replicate,
  length-append, length-set, length-take, length-drop, length-replicate, take-append-drop,
  get_or-set_self, get_or-set_ne, Bytes, codes, bytes_eq, bytes_eq_iff,
}
use stm32f746g_disco.Memory.{Mem, write}

abbrev pub u16 : ℕ → ℕ
u16 n = n % 2 ^ 16

-- CLI_CMD_BUFFER_SIZE, CLI_HISTORY_BUFFER_SIZE
abbrev pub cmd_buffer_size : ℕ
cmd_buffer_size = 256

abbrev pub history_buffer_size : ℕ
history_buffer_size = 512

-- the fields of `struct cli_instance` that the history uses
pub record History : Type 0 where
  pub hist : Mem
  pub hist_used : ℕ
  pub hist_nav_on : Bool
  pub hist_nav : ℕ
  pub line : Mem
  pub len : ℕ
  pub cur : ℕ

-- `while (i < hist_used && hist[i] != '\0') i++`, with the rounds up to `hist_used`
pub entry_end : ℕ → Mem → ℕ → ℕ
entry_end zero m i = i
entry_end (suc k) m i = elim (m i == 0) [ true ↦ i | false ↦ entry_end k m (suc i) ]

pub hist_next_off : Mem → ℕ → ℕ → ℕ
unfolding entry_end
hist_next_off m used off =
    let i = entry_end (used - off) m off in u16 (if ltb i used then i + 1 else used)

-- `while ((next = hist_next_off(sh, start)) < limit) start = next`
pub walk_loop : ℕ → Mem → ℕ → ℕ → ℕ → Option ℕ
unfolding hist_next_off
walk_loop zero m used limit start = none
walk_loop (suc f) m used limit start = elim (ltb (hist_next_off m used start) limit) [
  | true ↦ walk_loop f m used limit (hist_next_off m used start)
  | false ↦ some start
]

-- `hist_newest_off`, `hist_prev_off`
abbrev pub hist_newest_off : ℕ → Mem → ℕ → Option ℕ
hist_newest_off f m used = walk_loop f m used used 0

abbrev pub hist_prev_off : ℕ → Mem → ℕ → ℕ → Option ℕ
hist_prev_off f m used off = walk_loop f m used off 0

abbrev pub more : Option ℕ → Option ℕ
more none = none
more (some n) = some (suc n)

-- `strlen`, with the fuel for its scan
pub strlen : ℕ → Mem → ℕ → Option ℕ
strlen zero m p = none
strlen (suc f) m p = elim (m p == 0) [ true ↦ some 0 | false ↦ more (strlen f m (suc p)) ]

-- `memcpy(dst, &src[off], n)` to the start of a buffer
pub copy_front : Mem → Mem → ℕ → ℕ → Mem
copy_front dst src off n i = if ltb i n then src (off + i) else dst i

-- `memmove(m, &m[from], n)`, down to the start of the buffer
pub move_down : Mem → ℕ → ℕ → Mem
move_down m from n i = if ltb i n then m (from + i) else m i

-- `memcpy(&m[p], bytes, l); m[p + l] = '\0'`
pub store_string : Mem → ℕ → Bytes → Mem
store_string m p [] = write m p 0
store_string m p (c ∷ cs) = store_string (write m p c) (suc p) cs

-- `strcmp(&m[p], bytes) == 0`
pub same_string : Mem → ℕ → Bytes → Bool
same_string m p [] = m p == 0
same_string m p (c ∷ cs) = m p == c && same_string m (suc p) cs

pub hist_load : ℕ → ℕ → History → Option History
unfolding strlen copy_front
hist_load f off sh = elim (strlen f sh.hist off) [
  | none ↦ none
  | some l ↦
      some (record sh { line = copy_front sh.line sh.hist off (l + 1); len = u16 l; cur = u16 l })
]

-- `hist_nav = target; hist_nav_on = 1; hist_load(sh, target)`; the redraw of the line is left out
abbrev pub recall : ℕ → History → Option ℕ → Option History
recall f sh none = none
recall f sh (some target) = hist_load f target (record sh { hist_nav = target; hist_nav_on = true })

pub cli_history_prev : ℕ → History → Option History
unfolding hist_load walk_loop
cli_history_prev f sh =
    if sh.hist_used == 0
    then some sh
    else if not sh.hist_nav_on
    then recall f sh (hist_newest_off f sh.hist sh.hist_used)
    else if sh.hist_nav == 0
    then some sh
    else recall f sh (hist_prev_off f sh.hist sh.hist_used sh.hist_nav)

pub cli_history_next : ℕ → History → Option History
unfolding hist_load hist_next_off
cli_history_next f sh =
    let next = hist_next_off sh.hist sh.hist_used sh.hist_nav in
    if not sh.hist_nav_on
    then some sh
    else if ltb next sh.hist_used
    then hist_load f next (record sh { hist_nav = next })
    else some (record sh { hist_nav_on = false; len = 0; cur = 0; line = write sh.line 0 0 })

-- the `while` that makes room for `l` bytes and a NUL
pub evict_loop : ℕ → ℕ → Mem → ℕ → Option (Mem × ℕ)
unfolding hist_next_off move_down
evict_loop zero l m used = none
evict_loop (suc f) l m used =
    let first = hist_next_off m used 0 in
    elim (ltb history_buffer_size (used + l + 1)) [
      | true ↦ evict_loop f l (move_down m first (used - first)) (u16 (used - first))
      | false ↦ some (m, used)
    ]

abbrev pub append_entry : Bytes → History → Option (Mem × ℕ) → Option History
append_entry bytes sh none = none
append_entry bytes sh (some (m, used)) =
    some (record sh { hist = store_string m used bytes; hist_used = u16 (used + length bytes + 1) })

-- whether the line is the newest entry
abbrev pub is_repeat : Bytes → History → Option ℕ → Option Bool
is_repeat bytes sh none = none
is_repeat bytes sh (some off) = some (same_string sh.hist off bytes)

abbrev pub add_unless : ℕ → Bytes → History → Option Bool → Option History
add_unless f bytes sh none = none
add_unless f bytes sh (some true) = some sh
add_unless f bytes sh (some false) =
    append_entry bytes sh (evict_loop f (length bytes) sh.hist sh.hist_used)

abbrev pub rejected : ℕ → Bool
rejected l = l == 0 || leb cmd_buffer_size l || ltb history_buffer_size (l + 1)

pub cli_history_add : ℕ → History → Bytes → Option History
unfolding evict_loop store_string same_string walk_loop
cli_history_add f sh bytes =
    if rejected (length bytes)
    then some sh
    else add_unless f bytes sh (
        if ltb 0 sh.hist_used
        then is_repeat bytes sh (hist_newest_off f sh.hist sh.hist_used)
        else some false)
