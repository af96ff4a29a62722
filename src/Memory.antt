-- ===== src/Memory.antt =====
-- The memory that the C code reads and writes through `char *`: a value at each address, with a
-- NUL-terminated string as a predicate on it.
use stm32f746g_disco.Prelude.{
  ℕ, zero, suc, ◌+◌, ◌≤◌, ◌<◌, ◌≡◌, refl, ap, ◌∙◌, subst, ◌≢◌, Bool, true, not, ◌&&◌, [], ◌∷◌, ◌++◌,
  append_assoc, arith, ◌==◌, if◌then◌else◌, eq→==, ne→==, length, get_or, length-append, Bytes,
}

abbrev pub Mem : Type 0
Mem = ℕ → ℕ

-- `*p = v`
unfoldable pub write : Mem → ℕ → ℕ → Mem
write m p v i = if i == p then v else m i

-- `n` bytes at address `p`
abbrev pub bytes_at : Mem → ℕ → ℕ → Bytes
bytes_at b p zero = []
bytes_at b p (suc n) = b p ∷ bytes_at b (suc p) n

-- the C string at `p` has these bytes, none of them NUL
abbrev pub IsString : Mem → ℕ → Bytes → Type 0
IsString m p [] = m p ≡ 0
IsString m p (c ∷ cs) = (m p ≡ c) × (c ≢ 0) × IsString m (suc p) cs

-- these bytes, none of them NUL, stand from `p` on, whatever follows them
abbrev pub Holds : Mem → ℕ → Bytes → Type 0
Holds m p [] = Unit {0}
Holds m p (c ∷ cs) = (m p ≡ c) × (c ≢ 0) × Holds m (suc p) cs

-- the two memories agree below `p`
abbrev pub SameBelow : ℕ → Mem → Mem → Type 0
SameBelow p m n = (i : ℕ) → i < p → n i ≡ m i

pub write_self : (m : Mem) (p v : ℕ) → write m p v p ≡ v
unfolding write
write_self m p v = rw (eq→== p p refl)

pub write_ne : (m : Mem) (p v i : ℕ) → i ≢ p → write m p v i ≡ m i
unfolding write
write_ne m p v i h = rw (ne→== i p h)

pub write_at : (m : Mem) (p v i : ℕ) → write m p v i ≡ (if i == p then v else m i)
unfolding write
write_at m p v i = refl

-- A string is kept by a write below it.
pub IsString-write :
    (cs : Bytes) (m : Mem) (p q v : ℕ) → q < p → IsString m p cs → IsString (write m q v) p cs
IsString-write [] m p q v h s = write_ne m q v p (omega arith) ∙ s
IsString-write (c ∷ cs) m p q v h s =
    (write_ne m q v p (omega arith) ∙ s.0, s.1, IsString-write cs m (suc p) q v (omega arith) s.2)

-- Bytes that end at `e` are kept where the memory stays the same below `e`.
pub Holds-SameBelow :
    (cs : Bytes) (m n : Mem) (p e : ℕ)
    → p + length cs ≤ e
    → SameBelow e m n
    → Holds m p cs
    → Holds n p cs
Holds-SameBelow [] m n p e h same s = tt
Holds-SameBelow (c ∷ cs) m n p e h same s =
    (same p (omega arith) ∙ s.0, s.1, Holds-SameBelow cs m n (suc p) e (omega arith) same s.2)

pub IsString-Holds :
    (cs : Bytes) (m : Mem) (p : ℕ) → Holds m p cs → m (p + length cs) ≡ 0 → IsString m p cs
IsString-Holds [] m p s z = ap m (omega arith) ∙ z
IsString-Holds (c ∷ cs) m p s z =
    (s.0, s.1, IsString-Holds cs m (suc p) s.2 (ap m (omega arith) ∙ z))

pub Holds-IsString : (cs : Bytes) (m : Mem) (p : ℕ) → IsString m p cs → Holds m p cs
Holds-IsString [] m p s = tt
Holds-IsString (c ∷ cs) m p s = (s.0, s.1, Holds-IsString cs m (suc p) s.2)

pub IsString-end : (cs : Bytes) (m : Mem) (p : ℕ) → IsString m p cs → m (p + length cs) ≡ 0
IsString-end [] m p s = ap m (omega arith) ∙ s
IsString-end (c ∷ cs) m p s = ap m (omega arith) ∙ IsString-end cs m (suc p) s.2

-- A string that ends below `e` is kept where the memory stays the same below `e`.
pub IsString-SameBelow :
    (cs : Bytes) (m n : Mem) (p e : ℕ)
    → p + length cs < e
    → SameBelow e m n
    → IsString m p cs
    → IsString n p cs
IsString-SameBelow [] m n p e h same s = same p (omega arith) ∙ s
IsString-SameBelow (c ∷ cs) m n p e h same s =
    (same p (omega arith) ∙ s.0, s.1, IsString-SameBelow cs m n (suc p) e (omega arith) same s.2)

-- A memory that holds a byte string from address 0 on, and NUL behind it.
unfoldable pub image : Bytes → Mem
image cs i = get_or cs i 0

-- Bytes without a NUL, as a test.
abbrev pub no_nul : Bytes → Bool
no_nul [] = true
no_nul (c ∷ cs) = not (c == 0) && no_nul cs

get_or-append : (xs ys : Bytes) → get_or (xs ++ ys) (length xs) 0 ≡ get_or ys 0 0
get_or-append [] ys = refl
get_or-append (x ∷ xs) ys = get_or-append xs ys

image_behind : (pre cs : Bytes) → no_nul cs ≡ true → IsString (image (pre ++ cs)) (length pre) cs
unfolding image
image_behind pre [] e = get_or-append pre []
image_behind pre (c ∷ cs) e = (
  get_or-append pre (c ∷ cs),
  (λ z. cc (rw (eq→== c 0 z) at e)),
  subst (λ x. IsString (image (pre ++ c ∷ cs)) x cs) (length-append pre (c ∷ []) ∙ omega arith)
      (subst (λ x. IsString (image x) (length (pre ++ c ∷ [])) cs) (append_assoc pre (c ∷ []) cs)
        (image_behind (pre ++ c ∷ []) cs (no_nul-tail c cs e))),
)
  where
    no_nul-tail : (c : ℕ) (cs : Bytes) → no_nul (c ∷ cs) ≡ true → no_nul cs ≡ true
    no_nul-tail c cs e = ground arith

-- The image of bytes without a NUL is a C string.
pub image-IsString : (cs : Bytes) → no_nul cs ≡ true → IsString (image cs) 0 cs
image-IsString cs e = image_behind [] cs e
