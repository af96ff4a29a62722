-- ===== src/Edit/Undo.antt =====
-- Backspace undoes an insertion.
use stm32f746g_disco.Prelude.{
  ℕ, suc, ◌+◌, ◌-◌, ◌%◌, ◌^◌, ◌≤◌, ◌<◌, ◌≡◌, refl, ap, ◌∙◌, inl, inr, true, false, arith, ltb, leb,
  ◌==◌, ne→==, lt→ltb, tests, Bool-cases,
}
use stm32f746g_disco.Memory.{Mem, write, write_ne}
use stm32f746g_disco.Edit.Bounds.{sub32_lem, u16_dec_lem}
use stm32f746g_disco.Edit.{Editor, memmove, op_insert, op_backspace}

-- the same text and the same cursor
abbrev pub SameText : Editor → Editor → Type 0
SameText d e = (d.len ≡ e.len) × ((d.cur ≡ e.cur) × ((i : ℕ) → i < e.len → d.line i ≡ e.line i))

pub memmove_below : (m : Mem) (dst src n i : ℕ) → i < dst → memmove m dst src n i ≡ m i
memmove_below m dst src n i h = rw (outside_lem dst i h) refl
  where
    outside_lem : (dst i : ℕ) → i < dst → leb dst i ≡ false
    outside_lem dst i h = ground arith

pub memmove_in :
    (m : Mem) (dst src n i : ℕ)
    → dst ≤ i
    → i < dst + n
    → memmove m dst src n i ≡ m (src + (i - dst))
memmove_in m dst src n i h l = rw (inside_lem dst i h, lt→ltb i (dst + n) l) refl
  where
    inside_lem : (dst i : ℕ) → dst ≤ i → leb dst i ≡ true
    inside_lem dst i h = ground arith

-- One byte of the line behind the insertion and the removal, by where it stands.
byte_back :
    (m : Mem) (c cur len i : ℕ)
    → cur ≤ len
    → i < len
    → write
        (memmove
          (write (write (memmove m (cur + 1) cur (len - cur)) cur c) (len + 1) 0)
          (cur + 1 - 1)
          (cur + 1)
          (len + 1 - (cur + 1)))
        (len + 1 - 1)
        0
        i
      ≡ m i
byte_back m c cur len i h lt = elim (Bool-cases (ltb i cur)) [
  | inl b ↦
      write_ne erased (len + 1 - 1) 0 i (omega (arith, lt))
      ∙ memmove_below inserted (cur + 1 - 1) (cur + 1) (len + 1 - (cur + 1)) i (omega tests)
      ∙ write_ne (write gap cur c) (len + 1) 0 i (omega (arith, lt))
      ∙ write_ne gap cur c i (omega tests)
      ∙ memmove_below m (cur + 1) cur (len - cur) i (omega tests)
  | inr b ↦
      write_ne erased (len + 1 - 1) 0 i (omega (arith, lt))
      ∙ memmove_in inserted (cur + 1 - 1) (cur + 1) (len + 1 - (cur + 1)) i (omega tests)
          (omega (tests, lt))
      ∙ ap inserted (next_place (omega tests))
      ∙ write_ne (write gap cur c) (len + 1) 0 (suc i) (omega (arith, lt))
      ∙ write_ne gap cur c (suc i) (omega tests)
      ∙ memmove_in m (cur + 1) cur (len - cur) (suc i) (omega tests) (omega (tests, lt))
      ∙ ap m (place (omega tests))
]
  where
    gap : Mem
    gap = memmove m (cur + 1) cur (len - cur)

    inserted : Mem
    inserted = write (write gap cur c) (len + 1) 0

    erased : Mem
    erased = memmove inserted (cur + 1 - 1) (cur + 1) (len + 1 - (cur + 1))

    next_place : cur ≤ i → cur + 1 + (i - (cur + 1 - 1)) ≡ suc i
    next_place b = omega (arith, b)

    place : cur ≤ i → cur + (suc i - (cur + 1)) ≡ i
    place b = omega (arith, b)

-- the same for a character at the end
byte_back_end :
    (m : Mem) (c len i : ℕ)
    → i < len
    → write
        (memmove (write (write m len c) (len + 1) 0) (len + 1 - 1) (len + 1) (len + 1 - (len + 1)))
        (len + 1 - 1)
        0
        i
      ≡ m i
byte_back_end m c len i lt =
    write_ne (memmove inserted (len + 1 - 1) (len + 1) (len + 1 - (len + 1))) (len + 1 - 1) 0 i
      (omega (arith, lt))
    ∙ memmove_below inserted (len + 1 - 1) (len + 1) (len + 1 - (len + 1)) i (omega (arith, lt))
    ∙ write_ne (write m len c) (len + 1) 0 i (omega (arith, lt))
    ∙ write_ne m len c i (omega (arith, lt))
  where
    inserted : Mem
    inserted = write (write m len c) (len + 1) 0

not_full : (n : ℕ) → n < 255 → leb 255 n ≡ false
not_full n h = ground arith

-- With room in the line and in insert mode, a character that is inserted and then erased by Backspace
-- leaves the text and the cursor as they were.
pub op_backspace-op_insert :
    (c : ℕ) (e : Editor)
    → e.cur ≤ e.len
    → e.len < 255
    → e.overwrite ≡ false
    → SameText (op_backspace (op_insert c e)) e
unfolding op_insert op_backspace
op_backspace-op_insert c e h room mode = elim (Bool-cases (e.cur == e.len)) [
  | inl a ↦
      rw (mode, not_full e.len room, a)
        (rw (small e.len room) (
          rw
            (
              ne→== (e.len + 1) 0 (λ z. omega (arith, z)),
              sub32_lem (e.len + 1) 1 (omega arith) (omega (arith, room)),
              sub32_lem (e.len + 1) (e.len + 1) (omega arith) (omega (arith, room)),
              u16_dec_lem (e.len + 1) (λ z. omega (arith, z)) (omega (arith, room)),
            )
            (omega arith, (omega (tests), (λ i lt. byte_back_end e.line c e.len i lt)))))
  | inr a ↦
      rw (mode, not_full e.len room, a)
        (rw (small e.len room, small e.cur (omega (arith, h, room)))
          (rw
            (
              ne→== (e.cur + 1) 0 (λ z. omega (arith, z)),
              sub32_lem e.len e.cur h (omega (arith, room)),
              sub32_lem (e.cur + 1) 1 (omega arith) (omega (arith, h, room)),
              sub32_lem (e.len + 1) (e.cur + 1) (omega (arith, h)) (omega (arith, room)),
              u16_dec_lem (e.len + 1) (λ z. omega (arith, z)) (omega (arith, room)),
              u16_dec_lem (e.cur + 1) (λ z. omega (arith, z)) (omega (arith, h, room)),
            )
            (omega arith, (omega arith, (λ i lt. byte_back e.line c e.cur e.len i h lt)))))
]
  where
    small : (n : ℕ) → n < 255 → (n + 1) % 2 ^ 16 ≡ n + 1
    small n l = omega (arith, l)
