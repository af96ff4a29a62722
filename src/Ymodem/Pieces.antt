-- ===== src/Ymodem/Pieces.antt =====
-- Cutting a byte string in pieces, and that `fill` gathers the piece that is asked for.
use stm32f746g_disco.Prelude.{
  ℕ, zero, suc, ◌-◌, ◌≤◌, min, ◌≡◌, refl, sym, ap, ◌∙◌, subst, ◌≢◌, inl, inr, none, some, List, [],
  ◌∷◌, ◌++◌, arith, ◌==◌, ==→eq, ==→ne, Bool-cases, length, take, drop, Bytes,
}
use stm32f746g_disco.Ymodem.{Read, fault, short, Filled, prepend, fill}

pub take-nil : (n : ℕ) → ◌≡◌ {A = Bytes} (take n []) []
take-nil zero = refl
take-nil (suc n) = refl

pub drop-nil : (n : ℕ) → ◌≡◌ {A = Bytes} (drop n []) []
drop-nil zero = refl
drop-nil (suc n) = refl

pub take_all : (k : ℕ) (xs : Bytes) → length xs ≤ k → take k xs ≡ xs
take_all zero [] h = refl
take_all zero (x ∷ xs) h = absurd (omega (arith, h))
take_all (suc k) [] h = refl
take_all (suc k) (x ∷ xs) h = ap (λ y. x ∷ y) (take_all k xs (omega (arith, h)))

pub drop_all : (k : ℕ) (xs : Bytes) → length xs ≤ k → drop k xs ≡ []
drop_all zero [] h = refl
drop_all zero (x ∷ xs) h = absurd (omega (arith, h))
drop_all (suc k) [] h = refl
drop_all (suc k) (x ∷ xs) h = drop_all k xs (omega (arith, h))

pub take-take : (k r : ℕ) (xs : Bytes) → k ≤ r → take k (take r xs) ≡ take k xs
take-take zero r xs h = refl
take-take (suc k) zero xs h = absurd (omega (arith, h))
take-take (suc k) (suc r) [] h = refl
take-take (suc k) (suc r) (x ∷ xs) h = ap (λ y. x ∷ y) (take-take k r xs (omega (arith, h)))

pub drop-take :
    (k r : ℕ) (xs : Bytes) → k ≤ r → drop k (take r xs) ≡ take (r - length (take k xs)) (drop k xs)
drop-take zero r xs h = ap (λ n. take n xs) (omega arith)
drop-take (suc k) zero xs h = absurd (omega (arith, h))
drop-take (suc k) (suc r) [] h = sym (take-nil (suc r - 0))
drop-take (suc k) (suc r) (x ∷ xs) h =
    drop-take k r xs (omega (arith, h)) ∙ ap (λ n. take n (drop k xs)) (omega arith)

-- A piece in two parts, the first as long as it gets.
pub take_split :
    (j want : ℕ) (xs : Bytes)
    → j ≤ want
    → take want xs ≡ take j xs ++ take (want - length (take j xs)) (drop j xs)
take_split zero want xs h = ap (λ n. take n xs) (omega arith)
take_split (suc j) zero xs h = absurd (omega (arith, h))
take_split (suc j) (suc want) [] h = sym (take-nil (suc want - 0))
take_split (suc j) (suc want) (x ∷ xs) h =
    ap (λ y. x ∷ y)
      (take_split j want xs (omega (arith, h))
        ∙ ap (λ n. take j xs ++ take n (drop j xs)) (omega arith))

pub drop_split :
    (j want : ℕ) (xs : Bytes)
    → j ≤ want
    → drop want xs ≡ drop (want - length (take j xs)) (drop j xs)
drop_split zero want xs h = ap (λ n. drop n xs) (omega arith)
drop_split (suc j) zero xs h = absurd (omega (arith, h))
drop_split (suc j) (suc want) [] h = sym (drop-nil (suc want - 0))
drop_split (suc j) (suc want) (x ∷ xs) h =
    drop_split j want xs (omega (arith, h)) ∙ ap (λ n. drop n (drop j xs)) (omega arith)

-- Nothing is taken only from nothing.
pub nothing_taken : (k : ℕ) (xs : Bytes) → k ≢ 0 → length (take k xs) ≡ 0 → xs ≡ []
nothing_taken k [] ne h = refl
nothing_taken zero (x ∷ xs) ne h = absurd (ne refl)
nothing_taken (suc k) (x ∷ xs) ne h = absurd (omega (arith, h))

-- the piece that was filled in, and what is left of the file
abbrev pub Fills : ℕ → Bytes → Filled → Type 0
Fills want file none = Unit {0}
Fills want file (some (d, rs, rest)) = (d ≡ take want file) × (rest ≡ drop want file)

prepend-Fills :
    (j want : ℕ) (file : Bytes) (o : Filled)
    → j ≤ want
    → Fills (want - length (take j file)) (drop j file) o
    → Fills want file (prepend (take j file) o)
prepend-Fills j want file none h f = tt
prepend-Fills j want file (some (d, rs, rest)) h f = (
  ap (λ x. take j file ++ x) f.0 ∙ sym (take_split j want file h),
  f.1 ∙ sym (drop_split j want file h),
)

-- Whatever the sizes of the reads are, `fill` gathers the next `want` bytes of the file, or all there
-- are, and leaves the rest of the file, unless a read faults.
pub fill-Fills : (rs : List Read) (want : ℕ) (file : Bytes) → Fills want file (fill rs want file)
unfolding fill
fill-Fills [] want file = (refl, refl)
fill-Fills (fault ∷ rs) want file = elim (Bool-cases (want == 0)) [
  | inl e ↦
      rw (e, fill)
        (subst (λ w. ([] ≡ take w file) × (file ≡ drop w file)) (sym (==→eq want 0 e)) (refl, refl))
  | inr e ↦ rw (e, fill) tt
]
fill-Fills (short n ∷ rs) want file = elim (Bool-cases (want == 0)) [
  | inl e ↦
      rw (e, fill)
        (subst (λ w. ([] ≡ take w file) × (file ≡ drop w file)) (sym (==→eq want 0 e)) (refl, refl))
  | inr e ↦ elim (Bool-cases (length (take (min (suc n) want) file) == 0)) [
    | inl z ↦
        rw (e, z, fill)
          (at_end (==→ne want 0 e) (==→eq (length (take (min (suc n) want) file)) 0 z))
    | inr z ↦
        rw (e, z, fill)
          (prepend-Fills (min (suc n) want) want file
            (fill rs (want - length (take (min (suc n) want) file)) (drop (min (suc n) want) file))
            (omega arith)
            (fill-Fills rs (want - length (take (min (suc n) want) file))
              (drop (min (suc n) want) file)))
  ]
]
  where
    at_end :
        want ≢ 0
        → length (take (min (suc n) want) file) ≡ 0
        → ([] ≡ take want file) × (file ≡ drop want file)
    at_end ne z =
        subst (λ x. ([] ≡ take want x) × (x ≡ drop want x))
          (sym (nothing_taken (min (suc n) want) file (λ m. ne (omega (arith, m))) z))
          (sym (take-nil want), sym (drop-nil want))
