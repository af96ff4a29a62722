-- ===== src/Edit.antt =====
-- shell/core/cli_edit.c: the line editor, a buffer with a cursor behind a state machine over the
-- bytes of the terminal. What it draws is left out.
pub mod Bounds
pub mod Keys
pub mod Undo
mod Tests
use stm32f746g_disco.Prelude.{
  ℕ, zero, suc, ◌+◌, ◌-◌, ◌*◌, ◌/◌, ◌%◌, ◌^◌, ◌≤◌, ◌<◌, min, max, bit_and, bit_or, bit_xor, ◌≡◌,
  refl, sym, ap, ap₂, ◌∙◌, subst, ◌≢◌, ◌↔◌, ◌⊎◌, inl, inr, Bool, true, false, not, ◌&&◌, ◌||◌,
  Option, none, some, List, [], ◌∷◌, ◌++◌, map, append_assoc, append-nil, arith, ltb, leb, ◌==◌,
  if◌then◌else◌, eq→==, ne→==, ==_iff, lt→ltb, le→ltb, tests, leb→le, leb→lt, ltb→lt, ltb→le, ==→eq,
  ==→ne, Bool-cases, Option-cases, some_eq, absurd_bool, length, get_elem?, get_or, set, take, drop,
  replicate, length-append, length-set, length-take, length-drop, length-replicate,
  take-append-drop, get_or-set_self, get_or-set_ne, Bytes, codes, bytes_eq, bytes_eq_iff,
}
use stm32f746g_disco.Memory.{Mem, write}

abbrev u16 : ℕ → ℕ
u16 n = n % 2 ^ 16

-- a difference as `int` and `size_t`, and so an index below 0, wraps at 32 bits; `x--` on `uint16_t`
abbrev pub sub32 : ℕ → ℕ → ℕ
sub32 a b = (a + 2 ^ 32 - b) % 2 ^ 32

abbrev pub u16_dec : ℕ → ℕ
u16_dec n = (n + 2 ^ 16 - 1) % 2 ^ 16

-- CLI_CMD_BUFFER_SIZE
abbrev pub cmd_buffer_size : ℕ
cmd_buffer_size = 256

-- `enum cli_rx_state`
pub data RxState : Type 0 where
  normal esc csi ss3 : RxState

-- the fields of `struct cli_instance` that the editor keeps
pub record Editor : Type 0 where
  pub line : Mem
  pub len : ℕ
  pub cur : ℕ
  pub overwrite : Bool
  pub hist_nav_on : Bool
  pub rx : RxState
  pub prev_cr : Bool
  pub esc_p : Mem
  pub esc_np : ℕ
  pub esc_bad : Bool
  pub bs_swap : Bool
  pub term_width : ℕ
  pub probing_cpr : Bool
  pub tab_list_armed : Bool
  pub render_dirty : Bool

-- `memmove(&m[dst], &m[src], n)`
abbrev pub memmove : Mem → ℕ → ℕ → ℕ → Mem
memmove m dst src n i = if leb dst i && ltb i (dst + n) then m (src + (i - dst)) else m i

-- The character at the end; `fast_append` and the slow path differ in what they draw.
abbrev pub append_char : ℕ → Editor → Editor
append_char c e =
    let n = u16 (e.len + 1) in
    record e { line = write (write e.line e.len c) n 0; len = n; cur = n }

abbrev pub insert_gap : ℕ → Editor → Editor
insert_gap c e =
    let n = u16 (e.len + 1) in
    record e {
      line = write (write (memmove e.line (e.cur + 1) e.cur (sub32 e.len e.cur)) e.cur c) n 0;
      len = n;
      cur = u16 (e.cur + 1);
    }

unfoldable pub op_insert : ℕ → Editor → Editor
op_insert c e =
    if e.overwrite && ltb e.cur e.len
    then record e { line = write e.line e.cur c; cur = u16 (e.cur + 1) }
    else if leb (cmd_buffer_size - 1) e.len
    then e
    else if e.cur == e.len
    then append_char c e
    else insert_gap c e

-- `fast_backspace` leaves the same buffer: at the end of the line the move is of no bytes
unfoldable pub op_backspace : Editor → Editor
op_backspace e = if e.cur == 0 then e else record e {
  line = write (memmove e.line (sub32 e.cur 1) e.cur (sub32 e.len e.cur)) (u16_dec e.len) 0;
  cur = u16_dec e.cur;
  len = u16_dec e.len;
}

pub op_delete_fwd : Editor → Editor
op_delete_fwd e = if leb e.len e.cur then e else record e {
  line = write (memmove e.line e.cur (e.cur + 1) (sub32 e.len (e.cur + 1))) (u16_dec e.len) 0;
  len = u16_dec e.len;
}

pub op_kill_eol : Editor → Editor
op_kill_eol e = if leb e.len e.cur then e else record e { len = e.cur; line = write e.line e.cur 0 }

pub op_kill_bol : Editor → Editor
op_kill_bol e =
    let n = u16 (sub32 e.len e.cur) in
    if e.cur == 0 then e else record e {
      line = write (memmove e.line 0 e.cur (sub32 e.len e.cur)) n 0;
      len = n;
      cur = 0;
    }

-- the two loops of `word_start`
pub back_spaces : Mem → ℕ → ℕ
back_spaces m zero = zero
back_spaces m (suc i) = elim (m i == b' ') [ true ↦ back_spaces m i | false ↦ suc i ]

pub back_word : Mem → ℕ → ℕ
back_word m zero = zero
back_word m (suc i) = elim (m i == b' ') [ true ↦ suc i | false ↦ back_word m i ]

pub word_start : Editor → ℕ → ℕ
unfolding back_spaces back_word
word_start e from = back_word e.line (back_spaces e.line from)

-- the two loops of `word_end`, with the rounds up to `len`
pub skip_blanks : ℕ → Mem → ℕ → ℕ
skip_blanks zero m i = i
skip_blanks (suc k) m i = elim (m i == b' ') [ true ↦ skip_blanks k m (suc i) | false ↦ i ]

pub skip_word : ℕ → Mem → ℕ → ℕ
skip_word zero m i = i
skip_word (suc k) m i = elim (m i == b' ') [ true ↦ i | false ↦ skip_word k m (suc i) ]

pub word_end : Editor → ℕ → ℕ
unfolding skip_blanks skip_word
word_end e from = let i = skip_blanks (e.len - from) e.line from in skip_word (e.len - i) e.line i

pub op_del_word : Editor → Editor
unfolding word_start
op_del_word e =
    let i = word_start e e.cur in
    let n = u16 (sub32 e.len (sub32 e.cur i)) in
    if e.cur == 0 then e else record e {
      line = write (memmove e.line i e.cur (sub32 e.len e.cur)) n 0;
      len = n;
      cur = u16 i;
    }

abbrev pub op_left : Editor → Editor
op_left e = if ltb 0 e.cur then record e { cur = u16_dec e.cur } else e

abbrev pub op_right : Editor → Editor
op_right e = if ltb e.cur e.len then record e { cur = u16 (e.cur + 1) } else e

abbrev pub op_home : Editor → Editor
op_home e = if ltb 0 e.cur then record e { cur = 0 } else e

abbrev pub op_end : Editor → Editor
op_end e = if ltb e.cur e.len then record e { cur = e.len } else e

pub op_word_left : Editor → Editor
unfolding word_start
op_word_left e = let i = word_start e e.cur in if i == e.cur then e else record e { cur = u16 i }

pub op_word_right : Editor → Editor
unfolding word_end
op_word_right e = let i = word_end e e.cur in if i == e.cur then e else record e { cur = u16 i }

-- The call into another file that a byte ends with, if any.
pub data Call : Type 0 where
  nothing : Call
  history_prev : Call
  history_next : Call
  dispatch_line : Call
  tab_complete : Call

abbrev pub stays : Editor → Editor × Call
stays e = (e, nothing)

-- the parameter in front of `~`
abbrev pub keypad : Editor → ℕ
keypad e = if leb 1 e.esc_np then e.esc_p 0 else 0

pub tilde_final : ℕ → Editor → Editor
unfolding op_delete_fwd
tilde_final n e =
    if n == 1 || n == 7
    then op_home e
    else if n == 4 || n == 8
    then op_end e
    else if n == 2
    then record e { overwrite = not e.overwrite }
    else if n == 3
    then op_delete_fwd e
    else e

-- the reply to the width probe
pub cpr_final : Editor → Editor
cpr_final e =
    if e.probing_cpr && not e.esc_bad && e.esc_np == 2 && leb 20 (e.esc_p 1) && leb (e.esc_p 1) 255
    then record e { probing_cpr = false; term_width = e.esc_p 1 }
    else e

pub csi_final : ℕ → Editor → Editor × Call
unfolding tilde_final cpr_final
csi_final f e =
    if f == b'A'
    then (e, history_prev)
    else if f == b'B'
    then (e, history_next)
    else if f == b'C'
    then stays (op_right e)
    else if f == b'D'
    then stays (op_left e)
    else if f == b'H'
    then stays (op_home e)
    else if f == b'F'
    then stays (op_end e)
    else if f == b'~'
    then stays (tilde_final (keypad e) e)
    else if f == b'R'
    then stays (cpr_final e)
    else stays e

pub ss3_final : ℕ → Editor → Editor × Call
ss3_final f e =
    if f == b'A'
    then (e, history_prev)
    else if f == b'B'
    then (e, history_next)
    else if f == b'C'
    then stays (op_right e)
    else if f == b'D'
    then stays (op_left e)
    else if f == b'H'
    then stays (op_home e)
    else if f == b'F'
    then stays (op_end e)
    else stays e

abbrev pub edit_submit : Editor → Editor × Call
edit_submit e = ((if e.cur == e.len then e else record e { cur = e.len }), dispatch_line)

-- Ctrl+C
abbrev pub cancel_line : Editor → Editor
cancel_line e = record e {
  rx = normal;
  prev_cr = false;
  len = 0;
  cur = 0;
  line = write e.line 0 0;
  hist_nav_on = false;
}

pub esc_byte : ℕ → Editor → Editor × Call
unfolding op_word_left op_word_right
esc_byte b e =
    if b == b'['
    then stays
        (record e { rx = csi; esc_np = 0; esc_bad = false; esc_p = write (write e.esc_p 0 0) 1 0 })
    else if b == b'O'
    then stays (record e { rx = ss3 })
    else if b == b'b'
    then stays (op_word_left (record e { rx = normal }))
    else if b == b'f'
    then stays (op_word_right (record e { rx = normal }))
    else stays (record e { rx = normal })

abbrev pub digit : ℕ → Editor → Editor
digit b e =
    let np = if e.esc_np == 0 then 1 else e.esc_np in
    record e {
      esc_np = np;
      esc_p = write e.esc_p (np - 1) (u16 (e.esc_p (np - 1) * 10 + (b - 48)));
    }

abbrev pub separator : Editor → Editor
separator e =
    if ltb e.esc_np 2 then record e { esc_np = e.esc_np + 1 } else record e { esc_bad = true }

abbrev pub is_final : ℕ → Bool
is_final b = leb 0x40 b && leb b 0x7E

pub csi_byte : ℕ → Editor → Editor × Call
unfolding csi_final
csi_byte b e =
    if leb b'0' b && leb b b'9'
    then stays (digit b e)
    else if b == b';'
    then stays (separator e)
    else if is_final b
    then csi_final b (record e { rx = normal })
    else stays (record e { rx = normal })

pub ss3_byte : ℕ → Editor → Editor × Call
unfolding ss3_final
ss3_byte b e =
    if is_final b then ss3_final b (record e { rx = normal }) else stays (record e { rx = normal })

-- `switch (b)` behind the line endings; Ctrl+L only draws
pub key_byte : ℕ → Editor → Editor × Call
unfolding op_insert op_backspace op_delete_fwd op_kill_eol op_kill_bol op_del_word
key_byte b e =
    if b == 0x1B
    then stays (record e { rx = esc })
    else if b == 0x01
    then stays (op_home e)
    else if b == 0x02
    then stays (op_left e)
    else if b == 0x04
    then stays (op_delete_fwd e)
    else if b == 0x05
    then stays (op_end e)
    else if b == 0x06
    then stays (op_right e)
    else if b == 0x0B
    then stays (op_kill_eol e)
    else if b == 0x0C
    then stays e
    else if b == 0x0E
    then (e, history_next)
    else if b == 0x10
    then (e, history_prev)
    else if b == 0x15
    then stays (op_kill_bol e)
    else if b == 0x17
    then stays (op_del_word e)
    else if b == 0x09
    then (e, tab_complete)
    else if b == 0x08
    then stays (op_backspace e)
    else if b == 0x7F
    then stays (if e.bs_swap then op_delete_fwd e else op_backspace e)
    else if leb 0x20 b && leb b 0x7E
    then stays (op_insert b e)
    else stays e

-- The line endings. After a CR the dispatch leaves `prev_cr` as it is, so it is set here before.
pub normal_byte : ℕ → Editor → Editor × Call
unfolding key_byte
normal_byte b e =
    if b == b'\r'
    then edit_submit (record e { prev_cr = true })
    else if b == b'\n'
    then (if e.prev_cr then stays (record e { prev_cr = false }) else edit_submit e)
    else key_byte b (record e { prev_cr = false })

-- `switch (sh->rx)`
pub rx_byte : RxState → ℕ → Editor → Editor × Call
unfolding esc_byte csi_byte ss3_byte normal_byte
rx_byte esc b e = esc_byte b e
rx_byte csi b e = csi_byte b e
rx_byte ss3 b e = ss3_byte b e
rx_byte normal b e = normal_byte b e

-- the part behind the ASCII filter
abbrev pub ascii_byte : ℕ → Editor → Editor × Call
ascii_byte b e = if b == 0x03 then stays (cancel_line e) else rx_byte e.rx b e

pub cli_input_byte : ℕ → Editor → Editor × Call
unfolding rx_byte
cli_input_byte b e =
    if leb 0x80 b
    then stays (record e { render_dirty = false })
    else ascii_byte b (record e {
      render_dirty = false;
      tab_list_armed = if b == 0x09 then e.tab_list_armed else false;
    })
