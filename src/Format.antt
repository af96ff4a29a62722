-- ===== src/Format.antt =====
-- svc/fmt.c: the formatter without a C library. What is put is the list of bytes; the arguments are
-- the words and the strings that `va_arg` reads.
pub mod Output
mod Tests
use stm32f746g_disco.Prelude.{
  ℕ, zero, suc, ◌+◌, ◌-◌, ◌*◌, ◌/◌, ◌%◌, ◌^◌, ◌≤◌, ◌<◌, min, max, bit_and, bit_or, bit_xor, ◌≡◌,
  refl, sym, ap, ap₂, ◌∙◌, subst, ◌≢◌, ◌↔◌, ◌⊎◌, inl, inr, Bool, true, false, not, ◌&&◌, ◌||◌,
  Option, none, some, List, [], ◌∷◌, ◌++◌, map, append_assoc, append-nil, arith, ltb, leb, ◌==◌,
  if◌then◌else◌, eq→==, ne→==, ==_iff, lt→ltb, le→ltb, tests, leb→le, leb→lt, ltb→lt, ltb→le, ==→eq,
  ==→ne, Bool-cases, Option-cases, some_eq, absurd_bool, length, get_elem?, get_or, set, take, drop,
  replicate, length-append, length-set, length-take, length-drop, length-replicate,
  take-append-drop, get_or-set_self, get_or-set_ne, Bytes, codes, bytes_eq, bytes_eq_iff,
}

-- `out_str` and the loops over the body and the padding
unfoldable pub fmt_padded : Bytes → Bytes → ℕ → Bool → Bool → Bytes
fmt_padded prefix body width zeros left =
    let pad = width - (length prefix + length body) in
    if left
    then prefix ++ body ++ replicate pad b' '
    else if zeros
    then prefix ++ replicate pad b'0' ++ body
    else replicate pad b' ' ++ prefix ++ body

-- `digits[d]`
abbrev pub digit : Bool → ℕ → ℕ
digit upper d = if ltb d 10 then b'0' + d else if upper then b'A' + (d - 10) else b'a' + (d - 10)

abbrev pub reversed : Bytes → Bytes
reversed [] = []
reversed (c ∷ cs) = reversed cs ++ c ∷ []

-- the digits behind the lowest, in base 10 and in base 16, with room in `tmp` for so many
pub decimal_loop : ℕ → ℕ → Bytes
decimal_loop zero mag = []
decimal_loop (suc n) mag = elim (mag / 10 == 0) [
  | true ↦ digit false (mag % 10) ∷ []
  | false ↦ digit false (mag % 10) ∷ decimal_loop n (mag / 10)
]

pub hex_loop : Bool → ℕ → ℕ → Bytes
hex_loop upper zero mag = []
hex_loop upper (suc n) mag = elim (mag / 16 == 0) [
  | true ↦ digit upper (mag % 16) ∷ []
  | false ↦ digit upper (mag % 16) ∷ hex_loop upper n (mag / 16)
]

-- `fmt_utoa` with base 10, and with base 16
pub utoa_decimal : ℕ → Bytes
unfolding decimal_loop
utoa_decimal mag = reversed (decimal_loop 20 mag)

pub utoa_hex : Bool → ℕ → Bytes
unfolding hex_loop
utoa_hex upper mag = reversed (hex_loop upper 20 mag)

pub data LenMod : Type 0 where
  lm_int lm_long lm_llong lm_size : LenMod

-- `int`, `long` and `size_t` have 32 bits on the target
abbrev pub modulus : LenMod → ℕ
modulus lm_llong = 2 ^ 64
modulus lm_int = 2 ^ 32
modulus lm_long = 2 ^ 32
modulus lm_size = 2 ^ 32

-- an argument: a word, or a string that may be NULL
pub data Arg : Type 0 where
  word : ℕ → Arg
  text : Option Bytes → Arg

-- a conversion up to its last letter
pub record Spec : Type 0 where
  pub left : Bool
  pub zeros : Bool
  pub width : ℕ
  pub lm : LenMod

-- the loop over the flags
pub flags : Bytes → Spec → Spec × Bytes
flags [] s = (s, [])
flags (c ∷ cs) s =
    let dash = flags cs (record s { left = true }) in
    let nought = flags cs (record s { zeros = true }) in
    if c == b'-' then dash else if c == b'0' then nought else (s, c ∷ cs)

-- the loop over the width
pub field_width : Bytes → Spec → Spec × Bytes
field_width [] s = (s, [])
field_width (c ∷ cs) s =
    let w = s.width * 10 + (c - b'0') in
    let rest = field_width cs (record s { width = if ltb 4096 w then 4096 else w }) in
    if leb b'0' c && leb c b'9' then rest else (s, c ∷ cs)

abbrev pub second_l : Bytes → Spec → Spec × Bytes
second_l [] s = (record s { lm = lm_long }, [])
second_l (c ∷ cs) s =
    if c == b'l' then (record s { lm = lm_llong }, cs) else (record s { lm = lm_long }, c ∷ cs)

pub length_modifier : Bytes → Spec → Spec × Bytes
length_modifier [] s = (s, [])
length_modifier (c ∷ cs) s =
    if c == b'l'
    then second_l cs s
    else if c == b'z'
    then (record s { lm = lm_size }, cs)
    else (s, c ∷ cs)

abbrev pub start : Spec
start = record { left = false; zeros = false; width = 0; lm = lm_int }

pub conversion : Bytes → Spec × Bytes
unfolding flags field_width length_modifier
conversion fmt = let (s, r) = flags fmt start in let (t, q) = field_width r s in length_modifier q t

-- `%d` of a word: its sign and its magnitude
abbrev pub signed : ℕ → ℕ → Spec → Bytes
signed m v s =
    if leb (m / 2) v
    then fmt_padded (b'-' ∷ []) (utoa_decimal (m - v)) s.width s.zeros s.left
    else fmt_padded [] (utoa_decimal v) s.width s.zeros s.left

abbrev pub shown : Option Bytes → Bytes
shown none = codes "(null)"
shown (some t) = t

-- The output of a letter that takes a word; `none` for one that takes none.
pub on_word : ℕ → ℕ → Spec → Option Bytes
unfolding fmt_padded utoa_decimal utoa_hex
on_word c v s =
    let u = v % modulus s.lm in
    if c == b'c'
    then some (fmt_padded [] (v % 256 ∷ []) s.width false s.left)
    else if c == b'd' || c == b'i'
    then some (signed (modulus s.lm) u s)
    else if c == b'u'
    then some (fmt_padded [] (utoa_decimal u) s.width s.zeros s.left)
    else if c == b'x'
    then some (fmt_padded [] (utoa_hex false u) s.width s.zeros s.left)
    else if c == b'X'
    then some (fmt_padded [] (utoa_hex true u) s.width s.zeros s.left)
    else if c == b'p'
    then some (fmt_padded (codes "0x") (utoa_hex false (v % 2 ^ 32)) s.width s.zeros s.left)
    else none

-- whether the letter reads an argument
abbrev pub reads : ℕ → Bool
reads c =
    c == b'c'
    || c == b's'
    || c == b'd'
    || c == b'i'
    || c == b'u'
    || c == b'x'
    || c == b'X'
    || c == b'p'

abbrev pub with_rest : List Arg → Option Bytes → Option (Bytes × List Arg)
with_rest as' none = none
with_rest as' (some o) = some (o, as')

-- The output of a letter, and the arguments behind it; `none` where the argument is not of the
-- letter's kind, which C leaves undefined.
pub convert : ℕ → Spec → List Arg → Option (Bytes × List Arg)
unfolding on_word
convert c s [] = if reads c then none else some ((if c == b'%' then c ∷ [] else b'%' ∷ c ∷ []), [])
convert c s (word v ∷ as') =
    if reads c
    then with_rest as' (on_word c v s)
    else some ((if c == b'%' then c ∷ [] else b'%' ∷ c ∷ []), word v ∷ as')
convert c s (text t ∷ as') =
    if c == b's'
    then some (fmt_padded [] (shown t) s.width false s.left, as')
    else if reads c
    then none
    else some ((if c == b'%' then c ∷ [] else b'%' ∷ c ∷ []), text t ∷ as')

abbrev pub prepend : Bytes → Option Bytes → Option Bytes
prepend b none = none
prepend b (some o) = some (b ++ o)

-- behind a conversion: the output so far, and the rest
abbrev pub go_on : (List Arg → Option Bytes) → Option (Bytes × List Arg) → Option Bytes
go_on k none = none
go_on k (some (o, as')) = prepend o (k as')

abbrev pub at_letter : (Bytes → List Arg → Option Bytes) → List Arg → Spec × Bytes → Option Bytes
at_letter k as' (s, []) = some (b'%' ∷ [])
at_letter k as' (s, c ∷ cs) = go_on (k cs) (convert c s as')

-- `fmt_vformat`, with fuel for the rounds
pub fmt_vformat : ℕ → Bytes → List Arg → Option Bytes
unfolding conversion convert
fmt_vformat zero fmt as' = none
fmt_vformat (suc f) [] as' = some []
fmt_vformat (suc f) (c ∷ cs) as' =
    let plain = fmt_vformat f cs as' in
    let special = at_letter (fmt_vformat f) as' (conversion cs) in
    if c == b'%' then special else prepend (c ∷ []) plain

-- `struct fmt_snbuf`: the bytes stored, of which there are `pos`, and the size
pub snbuf_putc : ℕ → Bytes → ℕ → Bytes
snbuf_putc size stored c = if ltb (length stored + 1) size then stored ++ c ∷ [] else stored

pub snbuf_puts : ℕ → Bytes → Bytes → Bytes
unfolding snbuf_putc
snbuf_puts size stored [] = stored
snbuf_puts size stored (c ∷ cs) = snbuf_puts size (snbuf_putc size stored c) cs

abbrev pub stored_in : ℕ → Option Bytes → Option Bytes
stored_in size none = none
stored_in size (some o) = some (snbuf_puts size [] o)

-- `fmt_vsnformat`: what stands in the buffer before its NUL; the length is what it returns
pub fmt_vsnformat : ℕ → ℕ → Bytes → List Arg → Option Bytes
unfolding fmt_vformat snbuf_puts
fmt_vsnformat f size fmt as' = if size == 0 then some [] else stored_in size (fmt_vformat f fmt as')
