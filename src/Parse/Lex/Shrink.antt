-- ===== src/Parse/Lex/Shrink.antt =====
-- Reading a token shortens the line: what it leaves is shorter than the line.
use stm32f746g_disco.Prelude.{
  ℕ, suc, ◌≤◌, ◌<◌, ◌≡◌, inl, inr, Bool, true, false, none, some, [], ◌∷◌, arith, Bool-cases,
  length, Bytes,
}
use stm32f746g_disco.Parse.Lex.{
  Lex, bare, bare_escape, double, double_escape, single, Scan, Reading, nothing, open_quote,
  reading, is_space, next, is_text, ends, scan, prepend, skip_spaces, reading_of, read_from,
  read_token, scan-cons, ends_bare,
}

-- What the scan leaves, if it finds a token, is at most this long.
abbrev RestWithin : ℕ → Scan → Type 0
RestWithin n none = Unit {0}
RestWithin n (some (b, r)) = length r ≤ n

prepend-RestWithin : (t : Bool) (c n : ℕ) (s : Scan) → RestWithin n s → RestWithin n (prepend t c s)
prepend-RestWithin true c n (some (b, r)) h = h
prepend-RestWithin true c n none h = tt
prepend-RestWithin false c n s h = h

RestWithin-suc : (n : ℕ) (s : Scan) → RestWithin n s → RestWithin (suc n) s
RestWithin-suc n (some (b, r)) h = omega arith
RestWithin-suc n none h = tt

scan-RestWithin : (q : Lex) (cs : Bytes) → RestWithin (length cs) (scan q cs)
unfolding scan
scan-RestWithin bare [] = omega arith
scan-RestWithin bare_escape [] = omega arith
scan-RestWithin double [] = tt
scan-RestWithin double_escape [] = tt
scan-RestWithin single [] = tt
scan-RestWithin q (c ∷ cs) = elim (Bool-cases (ends q c)) [
  | inl e ↦ rw (scan-cons q c cs, e) (omega arith)
  | inr e ↦
      rw (scan-cons q c cs, e)
        (RestWithin-suc (length cs) (prepend (is_text q c) c (scan (next q c) cs)) (
          prepend-RestWithin (is_text q c) c (length cs) (scan (next q c) cs)
            (scan-RestWithin (next q c) cs)))
]

abbrev pub ReadWithin : ℕ → Reading → Type 0
ReadWithin n (reading b r) = length r < n
ReadWithin n nothing = Unit {0}
ReadWithin n open_quote = Unit {0}

reading_of-Within : (n : ℕ) (s : Scan) → RestWithin n s → ReadWithin (suc n) (reading_of s)
reading_of-Within n (some (b, r)) h = omega arith
reading_of-Within n none h = tt

ReadWithin-suc : (n : ℕ) (t : Reading) → ReadWithin n t → ReadWithin (suc n) t
ReadWithin-suc n (reading b r) h = omega arith
ReadWithin-suc n nothing h = tt
ReadWithin-suc n open_quote h = tt

read_from-Within :
    (c : ℕ) (cs : Bytes) → is_space c ≡ false → ReadWithin (suc (length cs)) (read_from (c ∷ cs))
read_from-Within c cs e =
    rw (scan-cons bare c cs, ends_bare c, e)
      (reading_of-Within (length cs) (prepend (is_text bare c) c (scan (next bare c) cs)) (
        prepend-RestWithin (is_text bare c) c (length cs) (scan (next bare c) cs)
          (scan-RestWithin (next bare c) cs)))

-- A token that is read makes the line shorter.
pub read_token-Within : (line : Bytes) → ReadWithin (length line) (read_token line)
unfolding read_token
read_token-Within [] = tt
read_token-Within (c ∷ cs) = elim (Bool-cases (is_space c)) [
  | inl e ↦ rw e (ReadWithin-suc (length cs) (read_from (skip_spaces cs)) (read_token-Within cs))
  | inr e ↦ rw e (read_from-Within c cs e)
]

-- What `read_token` leaves is shorter than the line.
pub length-read_token : (line b r : Bytes) → read_token line ≡ reading b r → length r < length line
length-read_token line b r e = rw e at (read_token-Within line)
