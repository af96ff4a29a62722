-- ===== src/Ymodem/Wire.antt =====
-- What a block that is acknowledged has left on the line: copies of itself.
use stm32f746g_disco.Prelude.{
  ℕ, zero, suc, ◌≤◌, ◌≡◌, refl, sym, ap, ◌∙◌, ◌⊎◌, inl, inr, Bool, true, false, List, [], ◌∷◌, ◌++◌,
  append_assoc, arith, ◌==◌, Bool-cases, replicate, Bytes,
}
use stm32f746g_disco.Ymodem.{
  Reply, byte, timeout, abort, Link, Result, ok, err_timeout, can, ack, reply_of, getc, put_on, put,
  Heard, wanted, cancelled, stray, silent, is_double_can, hear, listen, on_heard, after_put,
  send_loop,
}

-- A `put` that succeeds adds its buffer.
abbrev Puts : Bytes → Link → Bool × Link → Type 0
Puts b l (true, m) = m.wire ≡ l.wire
Puts b l (false, m) = m.wire ≡ l.wire ++ b ∷ []

put-Puts : (b : Bytes) (l : Link) → Puts b l (put b l)
put-Puts b l = put_on-Puts l.faults
  where
    put_on-Puts : (fs : List Bool) → Puts b l (put_on b l fs)
    put_on-Puts [] = refl
    put_on-Puts (true ∷ fs) = refl
    put_on-Puts (false ∷ fs) = refl

reply_of-wire : (l : Link) (rs : List Reply) → (reply_of l rs).1.wire ≡ l.wire
reply_of-wire l [] = refl
reply_of-wire l (r ∷ rs) = refl

double_can-wire : (x : Reply × Link) → (is_double_can x).1.wire ≡ x.1.wire
double_can-wire (byte b, l) = refl
double_can-wire (timeout, l) = refl
double_can-wire (abort, l) = refl

hear-wire : (w : ℕ) (x : Reply × Link) → (hear w x).1.wire ≡ x.1.wire
hear-wire w (timeout, l) = refl
hear-wire w (abort, l) = refl
hear-wire w (byte b, l) = elim (Bool-cases (b == w)) [
  | inl e ↦ rw e refl
  | inr e ↦ elim (Bool-cases (b == can)) [
    | inl c ↦ rw (e, c) (double_can-wire (getc l) ∙ reply_of-wire l l.answers)
    | inr c ↦ rw (e, c) refl
  ]
]

-- Listening puts nothing on the line.
pub listen-wire : (w : ℕ) (l : Link) → (listen w l).1.wire ≡ l.wire
unfolding listen
listen-wire w l = hear-wire w (getc l) ∙ reply_of-wire l l.answers

abbrev Again : (Link → Result × Link) → Bytes → Link → Link → Type 0
Again again b l m =
    (m.wire ≡ l.wire ++ b ∷ []) ⊎ ((n : Link) × (n.wire ≡ l.wire ++ b ∷ []) × (again n ≡ (ok, m)))

on_heard-ok :
    (again : Link → Result × Link) (b : Bytes) (l : Link) (x : Heard × Link) {m : Link}
    → x.1.wire ≡ l.wire ++ b ∷ []
    → on_heard again x ≡ (ok, m)
    → Again again b l m
on_heard-ok again b l (wanted, n) h e = inl (ap (λ x. x.1.wire) (sym e) ∙ h)
on_heard-ok again b l (cancelled, n) h e = cc (ap (λ x. x.0) e)
on_heard-ok again b l (stray, n) h e = inr (n, h, e)
on_heard-ok again b l (silent, n) h e = inr (n, h, e)

after_put-ok :
    (again : Link → Result × Link) (b : Bytes) (l : Link) (x : Bool × Link) {m : Link}
    → Puts b l x
    → after_put again x ≡ (ok, m)
    → Again again b l m
after_put-ok again b l (true, n) h e = cc (ap (λ x. x.0) e)
after_put-ok again b l (false, n) h e =
    on_heard-ok again b l (listen ack n) (listen-wire ack n ∙ h) e

-- so many copies of a buffer behind what was on the line, one at least
abbrev pub Copied : ℕ → Bytes → Link → Link → Type 0
Copied most b l m = (n : ℕ) × (n ≤ most) × (m.wire ≡ l.wire ++ replicate (suc n) b)

-- Where the loop of `send_block` or `send_eot` returns YM_OK, its buffer was put at least once and at
-- most once more than there are resends, and nothing else was.
pub send_loop-Copied :
    (k : ℕ) (b : Bytes) (l : Link) {m : Link} → send_loop k b l ≡ (ok, m) → Copied k b l m
unfolding send_loop
send_loop-Copied zero b l {m} e =
    elim (after_put-ok (λ l'. (err_timeout, l')) b l (put b l) (put-Puts b l) e) [
      | inl h ↦ (0, omega arith, h)
      | inr (n, h, a) ↦ cc (ap (λ x. x.0) a)
    ]
send_loop-Copied (suc k) b l {m} e =
    elim (after_put-ok (send_loop k b) b l (put b l) (put-Puts b l) e) [
      | inl h ↦ (0, omega arith, h)
      | inr (n, h, a) ↦
          let (c, le, w) = send_loop-Copied k b n a in
          (
            suc c,
            omega (arith, le),
            w
                ∙ ap (λ x. x ++ replicate (suc c) b) h
                ∙ append_assoc l.wire (b ∷ []) (replicate (suc c) b),
          )
    ]
