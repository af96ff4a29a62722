-- ===== src/Complete/Scan.antt =====
-- What `scan_candidates` finds: how many names have the prefix, and how far they go on alike.
use stm32f746g_disco.Prelude.{
  ℕ, zero, suc, ◌+◌, ◌-◌, ◌≤◌, ◌<◌, ◌≡◌, refl, sym, ◌∙◌, subst, Bool, true, false, ◌&&◌, List, [],
  ◌∷◌, arith, ◌==◌, if◌then◌else◌, eq→==, ne→==, ==→eq, absurd_bool, length, set, take, drop,
  length-take, length-drop, Bytes,
}
use stm32f746g_disco.Parse.Command.{Cmds, end, entry, name}
use stm32f746g_disco.Complete.{starts_with, agreed, Found, count_one, scan_set, scan_candidates}

-- the names in a set that have the prefix, each from behind it
abbrev pub tails : Bytes → Cmds → List Bytes
tails p end = []
tails p (entry c cs) =
    if starts_with p (name c) then drop (length p) (name c) ∷ tails p cs else tails p cs

abbrev pub AllStart : Bytes → List Bytes → Type 0
AllStart t [] = Unit {0}
AllStart t (x ∷ xs) = (starts_with t x ≡ true) × AllStart t xs

-- what is found in the names that were seen, by their tails in any order
record Finds (p : Bytes) (seen : List Bytes) (s : Found) : Type 0 where
  counted : s.count ≡ length seen
  fits : s.lcp ≤ length (drop (length p) s.first)
  alike : AllStart (take s.lcp (drop (length p) s.first)) seen
  longest :
      (u : Bytes)
      → AllStart u seen
      → 0 < length seen
      → (starts_with u (drop (length p) s.first) ≡ true) × (length u ≤ s.lcp)

agreed-le : (l : ℕ) (x y : Bytes) → agreed l x y ≤ l
agreed-le zero x y = omega arith
agreed-le (suc l) [] y = omega arith
agreed-le (suc l) (a ∷ x) [] = omega arith
agreed-le (suc l) (a ∷ x) (b ∷ y) = pick (a == b) (agreed-le l x y)
  where
    pick :
        (c : Bool) → agreed l x y ≤ l → elim c [ true ↦ suc (agreed l x y) | false ↦ zero ] ≤ suc l
    pick true h = omega arith
    pick false h = omega arith

-- The part that agrees starts both.
agreed-starts : (l : ℕ) (x y : Bytes) → starts_with (take (agreed l x y) y) x ≡ true
agreed-starts zero x y = refl
agreed-starts (suc l) [] y = refl
agreed-starts (suc l) (a ∷ x) [] = refl
agreed-starts (suc l) (a ∷ x) (b ∷ y) = pick (a == b) refl (agreed-starts l x y)
  where
    pick :
        (c : Bool)
        → (a == b) ≡ c
        → starts_with (take (agreed l x y) y) x ≡ true
        → starts_with (take (elim c [ true ↦ suc (agreed l x y) | false ↦ zero ]) (b ∷ y)) (a ∷ x)
          ≡ true
    pick true e h = rw (eq→== b a (sym (==→eq a b e))) h
    pick false e h = refl

-- What starts both, within the limit, is no longer than the part that agrees.
agreed-longest :
    (l : ℕ) (x y u : Bytes)
    → starts_with u x ≡ true
    → starts_with u y ≡ true
    → length u ≤ l
    → length u ≤ agreed l x y
agreed-longest l x y [] h k b = omega arith
agreed-longest zero x y (c ∷ u) h k b = absurd (omega arith)
agreed-longest (suc l) [] y (c ∷ u) h k b = absurd_bool h
agreed-longest (suc l) (a ∷ x) [] (c ∷ u) h k b = absurd_bool k
agreed-longest (suc l) (a ∷ x) (d ∷ y) (c ∷ u) h k b =
    same_head (c == a) (c == d) refl refl h k (λ p q. agreed-longest l x y u p q (omega arith))
  where
    same_head :
        (f g : Bool)
        → (c == a) ≡ f
        → (c == d) ≡ g
        → (f && starts_with u x) ≡ true
        → (g && starts_with u y) ≡ true
        → (starts_with u x ≡ true → starts_with u y ≡ true → length u ≤ agreed l x y)
        → suc (length u) ≤ elim (a == d) [ true ↦ suc (agreed l x y) | false ↦ zero ]
    same_head true true e g h k ih =
        rw (eq→== a d (sym (==→eq c a e) ∙ ==→eq c d g)) (omega (arith, ih h k))
    same_head true false e g h k ih = absurd_bool k
    same_head false g e q h k ih = absurd_bool h

starts-take : (l : ℕ) (y u : Bytes) → starts_with u y ≡ true → length u ≤ length y
starts-take l y [] h = omega arith
starts-take l [] (c ∷ u) h = absurd_bool h
starts-take l (d ∷ y) (c ∷ u) h = pick (c == d) h (starts-take l y u)
  where
    pick :
        (b : Bool)
        → (b && starts_with u y) ≡ true
        → (starts_with u y ≡ true → length u ≤ length y)
        → suc (length u) ≤ suc (length y)
    pick true h ih = omega (arith, ih h)
    pick false h ih = absurd_bool h

-- A shorter start of the same text starts what a longer one does.
shorter-starts :
    (k l : ℕ) (y x : Bytes)
    → k ≤ l
    → starts_with (take l y) x ≡ true
    → starts_with (take k y) x ≡ true
shorter-starts zero l y x h s = refl
shorter-starts (suc k) zero y x h s = absurd (omega arith)
shorter-starts (suc k) (suc l) [] x h s = refl
shorter-starts (suc k) (suc l) (b ∷ y) [] h s = absurd_bool s
shorter-starts (suc k) (suc l) (b ∷ y) (a ∷ x) h s =
    pick (b == a) s (shorter-starts k l y x (omega arith))
  where
    pick :
        (c : Bool)
        → (c && starts_with (take l y) x) ≡ true
        → (starts_with (take l y) x ≡ true → starts_with (take k y) x ≡ true)
        → (c && starts_with (take k y) x) ≡ true
    pick true s ih = ih s
    pick false s ih = absurd_bool s

shorter-AllStart :
    (k l : ℕ) (y : Bytes) (xs : List Bytes)
    → k ≤ l
    → AllStart (take l y) xs
    → AllStart (take k y) xs
shorter-AllStart k l y [] h s = tt
shorter-AllStart k l y (x ∷ xs) h s =
    (shorter-starts k l y x h s.0, shorter-AllStart k l y xs h s.1)

starts_self : (y : Bytes) → starts_with (take (length y) y) y ≡ true
starts_self [] = refl
starts_self (b ∷ y) = rw (eq→== b b refl) (starts_self y)

-- The first candidate.
first-Finds :
    (p n : Bytes)
    → Finds p (drop (length p) n ∷ []) (record { count = 1; first = n; lcp = length n - length p })
first-Finds p n = record {
  counted = refl;
  fits = omega (arith, length-drop (length p) n);
  alike =
      (subst (λ l. starts_with (take l x) x ≡ true) (length-drop (length p) n) (starts_self x), tt);
  longest = λ u a _. (a.0, omega (arith, starts-take 0 x u a.0, length-drop (length p) n));
}
  where
    x : Bytes
    x = drop (length p) n

-- One candidate more.
more-Finds :
    (p n : Bytes) (seen : List Bytes) (s : Found)
    → 0 < length seen
    → Finds p seen s
    → Finds p (drop (length p) n ∷ seen) (record s {
      count = s.count + 1;
      lcp = agreed s.lcp (drop (length p) n) (drop (length p) s.first);
    })
more-Finds p n seen s b f = record {
  counted = omega (arith, f.counted);
  fits = omega (arith, agreed-le s.lcp x y, f.fits);
  alike = (
    agreed-starts s.lcp x y,
    shorter-AllStart (agreed s.lcp x y) s.lcp y seen (agreed-le s.lcp x y) f.alike,
  );
  longest = λ u a _. (
    (f.longest u a.1 b).0,
    agreed-longest s.lcp x y u a.0 (f.longest u a.1 b).0 (f.longest u a.1 b).1,
  );
}
  where
    x : Bytes
    x = drop (length p) n

    y : Bytes
    y = drop (length p) s.first

count_one-Finds :
    (p n : Bytes) (seen : List Bytes) (s : Found)
    → Finds p seen s
    → Finds p (drop (length p) n ∷ seen) (count_one p n s)
count_one-Finds p n [] s f = rw (eq→== s.count 0 f.counted) (first-Finds p n)
count_one-Finds p n (z ∷ seen) s f =
    rw (ne→== s.count 0 (λ e. absurd (omega (arith, f.counted))))
      (more-Finds p n (z ∷ seen) s (omega arith) f)

-- the tails that come, on top of those that were seen
abbrev onto : List Bytes → List Bytes → List Bytes
onto seen [] = seen
onto seen (x ∷ xs) = onto (x ∷ seen) xs

onto-AllStart :
    (u : Bytes) (seen xs : List Bytes) → AllStart u seen → AllStart u xs → AllStart u (onto seen xs)
onto-AllStart u seen [] a b = a
onto-AllStart u seen (x ∷ xs) a b = onto-AllStart u (x ∷ seen) xs (b.0, a) b.1

AllStart-onto :
    (u : Bytes) (seen xs : List Bytes) → AllStart u (onto seen xs) → AllStart u seen × AllStart u xs
AllStart-onto u seen [] a = (a, tt)
AllStart-onto u seen (x ∷ xs) a = (
  (AllStart-onto u (x ∷ seen) xs a).0.1,
  ((AllStart-onto u (x ∷ seen) xs a).0.0, (AllStart-onto u (x ∷ seen) xs a).1),
)

length-onto : (seen xs : List Bytes) → length (onto seen xs) ≡ length seen + length xs
length-onto seen [] = omega arith
length-onto seen (x ∷ xs) = omega (arith, length-onto (x ∷ seen) xs)

scan_set-Finds :
    (p : Bytes) (set : Cmds) (seen : List Bytes) (s : Found)
    → Finds p seen s
    → Finds p (onto seen (tails p set)) (scan_set p set s)
scan_set-Finds p end seen s f = f
scan_set-Finds p (entry c cs) seen s f =
    pick (starts_with p (name c))
      (scan_set-Finds p cs (drop (length p) (name c) ∷ seen) (count_one p (name c) s)
        (count_one-Finds p (name c) seen s f))
      (scan_set-Finds p cs seen s f)
  where
    pick :
        (b : Bool)
        → Finds p
            (onto (drop (length p) (name c) ∷ seen) (tails p cs))
            (scan_set p cs (count_one p (name c) s))
        → Finds p (onto seen (tails p cs)) (scan_set p cs s)
        → Finds p
            (onto seen (if b then drop (length p) (name c) ∷ tails p cs else tails p cs))
            (scan_set p cs (if b then count_one p (name c) s else s))
    pick true x y = x
    pick false x y = y

found : (p : Bytes) (set : Cmds) → Finds p (onto [] (tails p set)) (scan_candidates set p)
found p set =
    scan_set-Finds p set [] (record { count = 0; first = []; lcp = 0 })
      (record {
        counted = refl;
        fits = omega arith;
        alike = tt;
        longest = λ u a h. absurd (omega arith);
      })

-- the text that a Tab puts behind the prefix where there are several candidates
abbrev pub extension : Bytes → Cmds → Bytes
extension p set = let s = scan_candidates set p in take s.lcp (drop (length p) s.first)

-- The scan counts the names with the prefix. Each of them goes on with the text that a Tab puts behind
-- the prefix, and where there are any, no text that each of them goes on with is longer.
pub extension-longest :
    (p u : Bytes) (set : Cmds)
    → AllStart u (tails p set)
    → 0 < length (tails p set)
    → ((scan_candidates set p).count ≡ length (tails p set))
      × AllStart (extension p set) (tails p set)
      × (length u ≤ length (extension p set))
extension-longest p u set a h = (
  omega (arith, f.counted, length-onto [] (tails p set)),
  (AllStart-onto (extension p set) [] (tails p set) f.alike).1,
  omega (
    arith,
    f.fits,
    length-take (scan_candidates set p).lcp (drop (length p) (scan_candidates set p).first),
    (f.longest u (onto-AllStart u [] (tails p set) tt a)
        (omega (arith, h, length-onto [] (tails p set)))).1,
  ),
)
  where
    f : Finds p (onto [] (tails p set)) (scan_candidates set p)
    f = found p set
