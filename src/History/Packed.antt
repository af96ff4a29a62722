-- ===== src/History/Packed.antt =====
-- The byte ring as the list of its entries, oldest first, and the walks along it.
use stm32f746g_disco.Prelude.{
  ℕ, zero, suc, ◌+◌, ◌-◌, ◌≤◌, ◌<◌, ◌≡◌, ap, ◌∙◌, subst, some, List, [], ◌∷◌, ◌++◌, arith, ne→==,
  lt→ltb, le→ltb, length, Bytes,
}
use stm32f746g_disco.Memory.{Mem, IsString}
use stm32f746g_disco.History.{
  history_buffer_size, entry_end, hist_next_off, walk_loop, strlen, more, copy_front,
}

-- From `p` up to `used` the buffer holds these entries, each with its NUL, and nothing else.
abbrev pub Packed : Mem → ℕ → List Bytes → ℕ → Type 0
Packed m p [] used = p ≡ used
Packed m p (e ∷ es) used = IsString m p e × Packed m (suc (p + length e)) es used

-- the bytes that entries take
abbrev pub size : List Bytes → ℕ
size [] = 0
size (e ∷ es) = suc (length e) + size es

pub size-append : (es fs : List Bytes) → size (es ++ fs) ≡ size es + size fs
size-append [] fs = omega arith
size-append (e ∷ es) fs = omega (arith, size-append es fs)

pub Packed-size : (es : List Bytes) (m : Mem) (p used : ℕ) → Packed m p es used → used ≡ p + size es
Packed-size [] m p used h = omega arith
Packed-size (e ∷ es) m p used h = omega (arith, Packed-size es m (suc (p + length e)) used h.1)

entry_end_lem :
    (e : Bytes) (k : ℕ) (m : Mem) (p : ℕ)
    → IsString m p e
    → length e < k
    → entry_end k m p ≡ p + length e
unfolding entry_end
entry_end_lem e zero m p u lt = absurd (omega arith)
entry_end_lem [] (suc k) m p u lt = rw (u, entry_end) (omega arith)
entry_end_lem (c ∷ cs) (suc k) m p u lt =
    rw (u.0, ne→== c 0 u.1, entry_end)
      (omega (arith, entry_end_lem cs k m (suc p) u.2 (omega arith)))

pub next_off_lem :
    (e : Bytes) (m : Mem) (p used : ℕ)
    → IsString m p e
    → p + length e < used
    → used ≤ history_buffer_size
    → hist_next_off m used p ≡ suc (p + length e)
unfolding hist_next_off
next_off_lem e m p used u lt small =
    rw (entry_end_lem e (used - p) m p u (omega arith), lt→ltb (p + length e) used lt) (omega arith)

-- A walk stops at the entry that ends at its limit.
pub walk_lem :
    (es : List Bytes) (e : Bytes) (fs : List Bytes) (f : ℕ) (m : Mem) (p used limit : ℕ)
    → Packed m p (es ++ e ∷ fs) used
    → used ≤ history_buffer_size
    → limit ≡ suc (p + size es + length e)
    → length es < f
    → walk_loop f m used limit p ≡ some (p + size es)
unfolding walk_loop
walk_lem es e fs zero m p used limit h small l lt = absurd (omega arith)
walk_lem [] e fs (suc f) m p used limit h small l lt =
    rw
      (
        next_off_lem e m p used h.0 (omega (arith, Packed-size fs m (suc (p + length e)) used h.1))
            small,
        le→ltb (suc (p + length e)) limit (omega arith),
        walk_loop,
      )
      (ap some (omega arith))
walk_lem (d ∷ es) e fs (suc f) m p used limit h small l lt =
    rw (next, lt→ltb (suc (p + length d)) limit (omega arith), walk_loop)
      (rw next (
        walk_lem es e fs f m (suc (p + length d)) used limit h.1 small (omega arith) (omega arith)
        ∙ ap some (omega arith)))
  where
    next : hist_next_off m used p ≡ suc (p + length d)
    next =
        next_off_lem d m p used h.0
          (omega (
            arith,
            Packed-size (es ++ e ∷ fs) m (suc (p + length d)) used h.1,
            size-append es (e ∷ fs),
          ))
          small

pub strlen_lem :
    (e : Bytes) (f : ℕ) (m : Mem) (p : ℕ)
    → IsString m p e
    → length e < f
    → strlen f m p ≡ some (length e)
unfolding strlen
strlen_lem e zero m p u lt = absurd (omega arith)
strlen_lem [] (suc f) m p u lt = rw (u, strlen)
strlen_lem (c ∷ cs) (suc f) m p u lt =
    rw (u.0, ne→== c 0 u.1, strlen) (ap more (strlen_lem cs f m (suc p) u.2 (omega arith)))

-- A string is copied to the front with its NUL.
pub copy_front-IsString :
    (e : Bytes) (dst src : Mem) (off n i : ℕ)
    → IsString src (off + i) e
    → i + length e < n
    → IsString (copy_front dst src off n) i e
unfolding copy_front
copy_front-IsString [] dst src off n i u lt = rw (lt→ltb i n (omega arith)) u
copy_front-IsString (c ∷ cs) dst src off n i u lt = (
  rw (lt→ltb i n (omega arith)) u.0,
  u.1,
  copy_front-IsString cs dst src off n (suc i) (subst (λ x. IsString src x cs) (omega arith) u.2)
      (omega arith),
)

-- What an entry of the ring is.
pub Packed-entry :
    (es : List Bytes) (e : Bytes) (fs : List Bytes) (m : Mem) (p used : ℕ)
    → Packed m p (es ++ e ∷ fs) used
    → IsString m (p + size es) e × Packed m (suc (p + size es + length e)) fs used
Packed-entry [] e fs m p used h = (
  subst (λ x. IsString m x e) (omega arith) h.0,
  subst (λ x. Packed m x fs used) (omega arith) h.1,
)
Packed-entry (d ∷ es) e fs m p used h =
    let (u, r) = Packed-entry es e fs m (suc (p + length d)) used h.1 in
    (subst (λ x. IsString m x e) (omega arith) u, subst (λ x. Packed m x fs used) (omega arith) r)
