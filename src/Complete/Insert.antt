-- ===== src/Complete/Insert.antt =====
-- The text that a Tab inserts stands at the cursor, within the line buffer.
use stm32f746g_disco.Prelude.{
  ℕ, zero, suc, ◌+◌, ◌-◌, ◌%◌, ◌^◌, ◌≤◌, ◌<◌, ◌≡◌, refl, sym, ap, ap₂, ◌∙◌, ◌⊎◌, inl, inr, Bool,
  true, false, ◌&&◌, [], ◌∷◌, ◌++◌, append-nil, arith, ltb, leb, ◌==◌, if◌then◌else◌, tests, ==→eq,
  length, get_or, Bytes,
}
use stm32f746g_disco.Memory.{Mem, write, write_ne, bytes_at}
use stm32f746g_disco.Edit.{cmd_buffer_size, Editor, memmove}
use stm32f746g_disco.Edit.Bounds.{Safe, edited, memmove-outside}
use stm32f746g_disco.Edit.Undo.{memmove_below, memmove_in}
use stm32f746g_disco.Complete.{memcpy, insert_at_cursor}

memcpy_outside :
    (m : Mem) (dst i : ℕ) (src : Bytes)
    → (i < dst) ⊎ (dst + length src ≤ i)
    → memcpy m dst src i ≡ m i
memcpy_outside m dst i src h = pick (leb dst i) (ltb i (dst + length src)) refl refl
  where
    pick :
        (a b : Bool)
        → leb dst i ≡ a
        → ltb i (dst + length src) ≡ b
        → (if a && b then get_or src (i - dst) 0 else m i) ≡ m i
    pick false b e f = refl
    pick true false e f = refl
    pick true true e f = elim h [
      | inl l ↦ absurd (omega (tests, l))
      | inr r ↦ absurd (omega (tests, r))
    ]

memcpy_in :
    (m : Mem) (dst k : ℕ) (src : Bytes)
    → k < length src
    → memcpy m dst src (dst + k) ≡ get_or src k 0
memcpy_in m dst k src h = pick (leb dst (dst + k)) (ltb (dst + k) (dst + length src)) refl refl
  where
    pick :
        (a b : Bool)
        → leb dst (dst + k) ≡ a
        → ltb (dst + k) (dst + length src) ≡ b
        → (if a && b then get_or src (dst + k - dst) 0 else m (dst + k)) ≡ get_or src k 0
    pick false b e f = absurd (omega tests)
    pick true false e f = absurd (omega tests)
    pick true true e f = ap (λ j. get_or src j 0) (omega arith)

-- the new line, before its NUL
abbrev shifted : Bytes → Editor → Mem
shifted src e = memcpy (memmove e.line (e.cur + length src) e.cur (e.len - e.cur)) e.cur src

-- the editor when the text is in
abbrev inserted : Bytes → Editor → Editor
inserted src e = record e {
  line = write (shifted src e) ((e.len + length src) % 2 ^ 16) 0;
  len = (e.len + length src) % 2 ^ 16;
  cur = (e.cur + length src) % 2 ^ 16;
}

inserted-Safe :
    (m p : Mem) (src : Bytes) (e : Editor)
    → Safe m p e
    → e.len + length src ≤ cmd_buffer_size - 1
    → Safe m p (inserted src e)
inserted-Safe m p src e x h =
    edited m p e (shifted src e) ((e.len + length src) % 2 ^ 16) ((e.cur + length src) % 2 ^ 16) x
      (omega (arith, x.within, h)) (omega (arith, h))
      (λ i b.
        memcpy_outside (memmove e.line (e.cur + length src) e.cur (e.len - e.cur)) e.cur i src
          (inr (omega (arith, x.within, h, b)))
        ∙ memmove-outside e.line (e.cur + length src) e.cur (e.len - e.cur) i
            (omega (arith, x.within, h, b)))

-- Whatever the text is, it goes in within the buffer or not at all.
pub insert-Safe :
    (m p : Mem) (src : Bytes) (e : Editor) → Safe m p e → Safe m p (insert_at_cursor src e).1
insert-Safe m p src e x =
    pick (length src == 0) (ltb (cmd_buffer_size - 1) (e.len + length src)) refl
  where
    outcome : Bool → Bool → Bool × Editor
    outcome a b = if a then (true, e) else (if b then (false, e) else (true, inserted src e))

    pick :
        (a b : Bool) → ltb (cmd_buffer_size - 1) (e.len + length src) ≡ b → Safe m p (outcome a b).1
    pick true b f = x
    pick false true f = x
    pick false false f = inserted-Safe m p src e x (omega tests)

bytes_at-append :
    (m : Mem) (q a b : ℕ) → bytes_at m q (a + b) ≡ bytes_at m q a ++ bytes_at m (q + a) b
bytes_at-append m q zero b = ap₂ (bytes_at m) (omega arith) (omega arith)
bytes_at-append m q (suc a) b =
    ap (bytes_at m q) (suc_out a b)
    ∙ ap (◌∷◌ (m q)) (
        bytes_at-append m (suc q) a b
        ∙ ap (λ x. bytes_at m (suc q) a ++ bytes_at m x b) (omega arith))
  where
    suc_out : (a b : ℕ) → suc a + b ≡ suc (a + b)
    suc_out a b = omega arith

bytes_at-same :
    (m n : Mem) (q r a : ℕ)
    → ((k : ℕ) → k < a → m (q + k) ≡ n (r + k))
    → bytes_at m q a ≡ bytes_at n r a
bytes_at-same m n q r zero h = refl
bytes_at-same m n q r (suc a) h =
    ap₂ ◌∷◌ (ap m (omega arith) ∙ h 0 (omega arith) ∙ ap n (omega arith)) (
      bytes_at-same m n (suc q) (suc r) a
        (λ k l. ap m (omega arith) ∙ h (suc k) (omega arith) ∙ ap n (omega arith)))

bytes_at-list :
    (m : Mem) (q : ℕ) (src : Bytes)
    → ((k : ℕ) → k < length src → m (q + k) ≡ get_or src k 0)
    → bytes_at m q (length src) ≡ src
bytes_at-list m q [] h = refl
bytes_at-list m q (x ∷ src) h =
    ap₂ ◌∷◌ (ap m (omega arith) ∙ h 0 (omega arith))
      (bytes_at-list m (suc q) src (λ k l. ap m (omega arith) ∙ h (suc k) (omega arith)))

-- the text of the line
abbrev pub text : Editor → Bytes
text e = bytes_at e.line 0 e.len

-- the text before and behind the cursor
abbrev pub before : Editor → Bytes
before e = bytes_at e.line 0 e.cur

abbrev pub behind : Editor → Bytes
behind e = bytes_at e.line e.cur (e.len - e.cur)

pub text_parts : (e : Editor) → e.cur ≤ e.len → text e ≡ before e ++ behind e
text_parts e h =
    ap (bytes_at e.line 0) (omega arith)
    ∙ bytes_at-append e.line 0 e.cur (e.len - e.cur)
    ∙ ap (λ q. before e ++ bytes_at e.line q (e.len - e.cur)) (omega arith)

inserted-before :
    (src : Bytes) (e : Editor)
    → e.cur ≤ e.len
    → e.len + length src ≤ cmd_buffer_size - 1
    → bytes_at (inserted src e).line 0 (e.cur + length src) ≡ before e ++ src
inserted-before src e c h =
    bytes_at-append (inserted src e).line 0 e.cur (length src) ∙ ap₂ ◌++◌ old_before new_text
  where
    n : ℕ
    n = length src

    opened : Mem
    opened = memmove e.line (e.cur + n) e.cur (e.len - e.cur)

    at_end : (i : ℕ) → i < e.len + n → (inserted src e).line i ≡ shifted src e i
    at_end i l = write_ne (shifted src e) ((e.len + n) % 2 ^ 16) 0 i (omega (arith, l, h))

    old_before : bytes_at (inserted src e).line 0 e.cur ≡ before e
    old_before = bytes_at-same (inserted src e).line e.line 0 0 e.cur (λ k l.
        at_end (0 + k) (omega (arith, l, c))
        ∙ memcpy_outside opened e.cur (0 + k) src (inl (omega arith))
        ∙ memmove_below e.line (e.cur + n) e.cur (e.len - e.cur) (0 + k) (omega arith))

    new_text : bytes_at (inserted src e).line (0 + e.cur) n ≡ src
    new_text = bytes_at-list (inserted src e).line (0 + e.cur) src (λ k l.
        at_end (0 + e.cur + k) (omega (arith, l, c))
        ∙ ap (shifted src e) (omega arith)
        ∙ memcpy_in opened e.cur k src l)

inserted-text :
    (src : Bytes) (e : Editor)
    → e.cur ≤ e.len
    → e.len + length src ≤ cmd_buffer_size - 1
    → text (inserted src e) ≡ before e ++ src ++ behind e
inserted-text src e c h =
    ap (bytes_at (inserted src e).line 0) (whole c h)
    ∙ bytes_at-append (inserted src e).line 0 (e.cur + length src) (e.len - e.cur)
    ∙ ap₂ ◌++◌ (inserted-before src e c h) old_behind
  where
    n : ℕ
    n = length src

    opened : Mem
    opened = memmove e.line (e.cur + n) e.cur (e.len - e.cur)

    at_end : (i : ℕ) → i < e.len + n → (inserted src e).line i ≡ shifted src e i
    at_end i l = write_ne (shifted src e) ((e.len + n) % 2 ^ 16) 0 i (omega (arith, l, h))

    whole :
        e.cur ≤ e.len
        → e.len + n ≤ cmd_buffer_size - 1
        → (e.len + n) % 2 ^ 16 ≡ e.cur + n + (e.len - e.cur)
    whole c h = omega arith

    old_behind : bytes_at (inserted src e).line (0 + (e.cur + n)) (e.len - e.cur) ≡ behind e
    old_behind =
        bytes_at-same (inserted src e).line e.line (0 + (e.cur + n)) e.cur (e.len - e.cur) (λ k l.
          at_end (0 + (e.cur + n) + k) (omega (arith, l, c))
          ∙ memcpy_outside opened e.cur (0 + (e.cur + n) + k) src (inr (omega arith))
          ∙ memmove_in e.line (e.cur + n) e.cur (e.len - e.cur) (0 + (e.cur + n) + k) (omega arith)
              (omega (arith, l))
          ∙ ap e.line (omega arith))

-- Text that goes in stands at the cursor, with the line around it as it was, and the cursor behind
-- it, wherever the line has room for it.
pub insert-text :
    (m p : Mem) (src : Bytes) (e : Editor)
    → Safe m p e
    → e.len + length src ≤ cmd_buffer_size - 1
    → ((insert_at_cursor src e).0 ≡ true)
      × (text (insert_at_cursor src e).1 ≡ before e ++ src ++ behind e)
      × (before (insert_at_cursor src e).1 ≡ before e ++ src)
insert-text m p src e x h =
    pick (length src == 0) (ltb (cmd_buffer_size - 1) (e.len + length src)) refl refl
  where
    outcome : Bool → Bool → Bool × Editor
    outcome a b = if a then (true, e) else (if b then (false, e) else (true, inserted src e))

    nothing : (xs : Bytes) → length xs ≡ 0 → xs ≡ []
    nothing [] e = refl
    nothing (y ∷ xs) e = absurd (omega arith)

    pick :
        (a b : Bool)
        → (length src == 0) ≡ a
        → ltb (cmd_buffer_size - 1) (e.len + length src) ≡ b
        → ((outcome a b).0 ≡ true)
          × (text (outcome a b).1 ≡ before e ++ src ++ behind e)
          × (before (outcome a b).1 ≡ before e ++ src)
    pick true b z f = rw (nothing src (==→eq (length src) 0 z)) (
      refl,
      text_parts e x.within ∙ ap (λ xs. xs ++ behind e) (sym (append-nil (before e))),
      sym (append-nil (before e)),
    )
    pick false true z f = absurd (omega (tests, h))
    pick false false z f = (
      refl,
      inserted-text src e x.within h,
      ap (bytes_at (inserted src e).line 0) (omega (arith, x.within, h))
          ∙ inserted-before src e x.within h,
    )
