-- ===== src/Edit/Bounds.antt =====
-- The editor keeps its cursor within the line and its writes within its buffers.
use stm32f746g_disco.Prelude.{
  ℕ, zero, suc, ◌+◌, ◌-◌, ◌^◌, ◌≤◌, ◌<◌, ◌≡◌, refl, ◌∙◌, ◌⊎◌, inl, inr, Bool, true, false, ◌&&◌,
  arith, ltb, leb, ◌≢◌, ==→ne, ◌==◌, if◌then◌else◌, le→ltb, tests, Bool-cases,
}
use stm32f746g_disco.Memory.{Mem, write, write_self, write_ne}
use stm32f746g_disco.Edit.{
  u16, sub32, u16_dec, cmd_buffer_size, Editor, memmove, op_insert, op_backspace, op_delete_fwd,
  op_kill_eol, op_kill_bol, back_spaces, back_word, word_start, skip_blanks, skip_word, word_end,
  op_del_word, op_left, op_right, op_home, op_end, op_word_left, op_word_right,
}

-- The cursor is within the line, the line and its NUL fit the buffer, at most two parameters are
-- counted, the probed width is none or reasonable, and behind the buffers the memory is as in `m`, `p`.
pub record IsSafe (m p line : Mem) (len cur : ℕ) (esc_p : Mem) (esc_np width : ℕ) : Type 0 where
  pub within : cur ≤ len
  pub room : len < cmd_buffer_size
  pub ends : line len ≡ 0
  pub params : esc_np ≤ 2
  pub wide : (width ≡ 0) ⊎ ((20 ≤ width) × (width ≤ 255))
  pub outside : (i : ℕ) → cmd_buffer_size ≤ i → line i ≡ m i
  pub beside : (i : ℕ) → 2 ≤ i → esc_p i ≡ p i

abbrev pub Safe : Mem → Mem → Editor → Type 0
Safe m p e = IsSafe m p e.line e.len e.cur e.esc_p e.esc_np e.term_width

and_ltb : (b : Bool) (i n : ℕ) → (b && ltb i n) ≡ true → i < n
and_ltb b i n h = ground arith

back_spaces-bound : (m : Mem) (i : ℕ) → back_spaces m i ≤ i
unfolding back_spaces
back_spaces-bound m zero = omega arith
back_spaces-bound m (suc i) = elim (Bool-cases (m i == b' ')) [
  | inl e ↦ rw (e, back_spaces) (omega (arith, back_spaces-bound m i))
  | inr e ↦ rw (e, back_spaces) (omega arith)
]

back_word-bound : (m : Mem) (i : ℕ) → back_word m i ≤ i
unfolding back_word
back_word-bound m zero = omega arith
back_word-bound m (suc i) = elim (Bool-cases (m i == b' ')) [
  | inl e ↦ rw (e, back_word) (omega arith)
  | inr e ↦ rw (e, back_word) (omega (arith, back_word-bound m i))
]

skip_blanks-bound : (k : ℕ) (m : Mem) (i : ℕ) → skip_blanks k m i ≤ i + k
unfolding skip_blanks
skip_blanks-bound zero m i = omega arith
skip_blanks-bound (suc k) m i = elim (Bool-cases (m i == b' ')) [
  | inl e ↦ rw (e, skip_blanks) (omega (arith, skip_blanks-bound k m (suc i)))
  | inr e ↦ rw (e, skip_blanks) (omega arith)
]

skip_word-bound : (k : ℕ) (m : Mem) (i : ℕ) → skip_word k m i ≤ i + k
unfolding skip_word
skip_word-bound zero m i = omega arith
skip_word-bound (suc k) m i = elim (Bool-cases (m i == b' ')) [
  | inl e ↦ rw (e, skip_word) (omega arith)
  | inr e ↦ rw (e, skip_word) (omega (arith, skip_word-bound k m (suc i)))
]

word_start-bound : (e : Editor) (i : ℕ) → word_start e i ≤ i
unfolding word_start
word_start-bound e i =
    omega (arith, back_word-bound e.line (back_spaces e.line i), back_spaces-bound e.line i)

word_end-bound : (e : Editor) (i : ℕ) → i ≤ e.len → word_end e i ≤ e.len
unfolding word_end
word_end-bound e i h = omega (
  arith,
  h,
  skip_blanks-bound (e.len - i) e.line i,
  skip_word-bound (e.len - skip_blanks (e.len - i) e.line i) e.line
      (skip_blanks (e.len - i) e.line i),
)

pub memmove-outside : (m : Mem) (dst src n i : ℕ) → dst + n ≤ i → memmove m dst src n i ≡ m i
memmove-outside m dst src n i h = elim (Bool-cases (leb dst i)) [
  | inl e ↦ rw (e, le→ltb i (dst + n) h) refl
  | inr e ↦ rw e refl
]

pub sub32_lem : (a b : ℕ) → b ≤ a → a < 2 ^ 32 → sub32 a b ≡ a - b
sub32_lem a b h l = omega (arith, h, l)

pub u16_dec_lem : (n : ℕ) → n ≢ 0 → n < 2 ^ 16 → u16_dec n ≡ n - 1
u16_dec_lem n h l = omega (arith, h, l)

module _ (m p : Mem) where
  pub moved : (e : Editor) (c : ℕ) → Safe m p e → c ≤ e.len → Safe m p (record e { cur = c })
  moved e c x h = record {
    within = h;
    room = x.room;
    ends = x.ends;
    params = x.params;
    wide = x.wide;
    outside = x.outside;
    beside = x.beside;
  }

  -- a new line, ended where it is
  pub edited :
      (e : Editor) (l : Mem) (n c : ℕ)
      → Safe m p e
      → c ≤ n
      → n < cmd_buffer_size
      → ((i : ℕ) → cmd_buffer_size ≤ i → l i ≡ e.line i)
      → Safe m p (record e { line = write l n 0; len = n; cur = c })
  edited e l n c x h r o = record {
    within = h;
    room = r;
    ends = write_self l n 0;
    params = x.params;
    wide = x.wide;
    outside = λ i b. write_ne l n 0 i (omega (arith, r, b)) ∙ o i b ∙ x.outside i b;
    beside = x.beside;
  }

  left : (e : Editor) → Safe m p e → sub32 e.len e.cur ≡ e.len - e.cur
  left e x = sub32_lem e.len e.cur x.within (omega (arith, x.room))

  back : (e : Editor) → Safe m p e → e.cur ≢ 0 → sub32 e.cur 1 ≡ e.cur - 1
  back e x z = sub32_lem e.cur 1 (omega (arith, z)) (omega (arith, x.within, x.room))

  pick : (b : Bool) (d e : Editor) → Safe m p d → Safe m p e → Safe m p (if b then d else e)
  pick true d e x y = x
  pick false d e x y = y

  -- a character over another
  overwritten :
      (e : Editor) (k c : ℕ)
      → Safe m p e
      → e.cur < e.len
      → k ≤ e.len
      → Safe m p (record e { line = write e.line e.cur c; cur = k })
  overwritten e k c x lt h = record {
    within = h;
    room = x.room;
    ends = write_ne e.line e.cur c e.len (omega (arith, lt)) ∙ x.ends;
    params = x.params;
    wide = x.wide;
    outside = λ i b. write_ne e.line e.cur c i (omega (arith, lt, x.room, b)) ∙ x.outside i b;
    beside = x.beside;
  }

  pub op_insert-Safe : (c : ℕ) (e : Editor) → Safe m p e → Safe m p (op_insert c e)
  unfolding op_insert
  op_insert-Safe c e x = elim (Bool-cases (e.overwrite && ltb e.cur e.len)) [
    | inl o ↦ rw o (
        overwritten e (u16 (e.cur + 1)) c x (and_ltb e.overwrite e.cur e.len o)
          (omega (arith, and_ltb e.overwrite e.cur e.len o, x.room)))
    | inr o ↦ elim (Bool-cases (leb (cmd_buffer_size - 1) e.len)) [
      | inl full ↦ rw (o, full) x
      | inr free ↦ elim (Bool-cases (e.cur == e.len)) [
        | inl a ↦
            rw (o, free, a)
              (edited e (write e.line e.len c) _ _ x (omega arith) (omega tests)
                (λ i b. write_ne e.line e.len c i (omega (tests, b))))
        | inr a ↦
            rw (o, free, a)
              (rw (left e x) (
                edited e _ _ _ x (omega (tests, x.within)) (omega tests) (λ i b.
                  write_ne _ e.cur c i (omega (tests, x.within, b))
                  ∙ memmove-outside e.line (e.cur + 1) e.cur (e.len - e.cur) i
                      (omega (tests, x.within, b)))))
      ]
    ]
  ]

  pub op_backspace-Safe : (e : Editor) → Safe m p e → Safe m p (op_backspace e)
  unfolding op_backspace
  op_backspace-Safe e x = elim (Bool-cases (e.cur == 0)) [
    | inl z ↦ rw z x
    | inr z ↦ rw z (
        rw
          (
            left e x,
            back e x (==→ne e.cur 0 z),
            u16_dec_lem e.len (λ k. omega (arith, k, x.within, ==→ne e.cur 0 z))
                (omega (arith, x.room)),
            u16_dec_lem e.cur (==→ne e.cur 0 z) (omega (arith, x.within, x.room)),
          )
          (edited e _ (e.len - 1) (e.cur - 1) x (omega (arith, x.within)) (omega (arith, x.room))
            (λ i b.
              memmove-outside e.line (e.cur - 1) e.cur (e.len - e.cur) i
                (omega (tests, x.within, x.room, b)))))
  ]

  pub op_delete_fwd-Safe : (e : Editor) → Safe m p e → Safe m p (op_delete_fwd e)
  unfolding op_delete_fwd
  op_delete_fwd-Safe e x = elim (Bool-cases (leb e.len e.cur)) [
    | inl z ↦ rw z x
    | inr z ↦ rw z (
        rw
          (
            sub32_lem e.len (e.cur + 1) (omega tests) (omega (arith, x.room)),
            u16_dec_lem e.len (λ k. omega (tests, k)) (omega (arith, x.room)),
          )
          (edited e _ (e.len - 1) e.cur x (omega (tests, x.within)) (omega (arith, x.room)) (λ i b.
            memmove-outside e.line e.cur (e.cur + 1) (e.len - (e.cur + 1)) i
              (omega (tests, x.within, x.room, b)))))
  ]

  pub op_kill_eol-Safe : (e : Editor) → Safe m p e → Safe m p (op_kill_eol e)
  unfolding op_kill_eol
  op_kill_eol-Safe e x = elim (Bool-cases (leb e.len e.cur)) [
    | inl z ↦ rw z x
    | inr z ↦ rw z (
        edited e e.line e.cur e.cur x (omega arith) (omega (tests, x.within, x.room)) (λ i b. refl))
  ]

  pub op_kill_bol-Safe : (e : Editor) → Safe m p e → Safe m p (op_kill_bol e)
  unfolding op_kill_bol
  op_kill_bol-Safe e x = elim (Bool-cases (e.cur == 0)) [
    | inl z ↦ rw z x
    | inr z ↦ rw z (
        rw (left e x) (
          edited e _ _ 0 x (omega arith) (omega (arith, x.room, x.within)) (λ i b.
            memmove-outside e.line 0 e.cur (e.len - e.cur) i (omega (arith, x.within, x.room, b)))))
  ]

  pub op_del_word-Safe : (e : Editor) → Safe m p e → Safe m p (op_del_word e)
  unfolding op_del_word
  op_del_word-Safe e x = elim (Bool-cases (e.cur == 0)) [
    | inl z ↦ rw z x
    | inr z ↦ rw z (
        rw (left e x) (
          edited e _ _ _ x (omega (arith, x.within, x.room, at))
            (omega (arith, x.within, x.room, at))
            (λ i b.
              memmove-outside e.line (word_start e e.cur) e.cur (e.len - e.cur) i
                (omega (arith, x.within, x.room, b, at)))))
  ]
    where
      at : word_start e e.cur ≤ e.cur
      at = word_start-bound e e.cur

  pub op_left-Safe : (e : Editor) → Safe m p e → Safe m p (op_left e)
  op_left-Safe e x = elim (Bool-cases (ltb 0 e.cur)) [
    | inl z ↦ rw z (moved e (u16_dec e.cur) x (omega (tests, x.within, x.room)))
    | inr z ↦ rw z x
  ]

  pub op_right-Safe : (e : Editor) → Safe m p e → Safe m p (op_right e)
  op_right-Safe e x = elim (Bool-cases (ltb e.cur e.len)) [
    | inl z ↦ rw z (moved e (u16 (e.cur + 1)) x (omega (tests, x.room)))
    | inr z ↦ rw z x
  ]

  pub op_home-Safe : (e : Editor) → Safe m p e → Safe m p (op_home e)
  op_home-Safe e x = pick (ltb 0 e.cur) (record e { cur = 0 }) e (moved e 0 x (omega arith)) x

  pub op_end-Safe : (e : Editor) → Safe m p e → Safe m p (op_end e)
  op_end-Safe e x =
      pick (ltb e.cur e.len) (record e { cur = e.len }) e (moved e e.len x (omega arith)) x

  pub op_word_left-Safe : (e : Editor) → Safe m p e → Safe m p (op_word_left e)
  unfolding op_word_left
  op_word_left-Safe e x =
      pick (word_start e e.cur == e.cur) e (record e { cur = u16 (word_start e e.cur) }) x
        (moved e _ x (omega (arith, x.within, x.room, word_start-bound e e.cur)))

  pub op_word_right-Safe : (e : Editor) → Safe m p e → Safe m p (op_word_right e)
  unfolding op_word_right
  op_word_right-Safe e x =
      pick (word_end e e.cur == e.cur) e (record e { cur = u16 (word_end e e.cur) }) x
        (moved e _ x (omega (arith, x.room, word_end-bound e e.cur x.within)))
