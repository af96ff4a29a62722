-- ===== src/Ymodem/Transfer.antt =====
-- What a transfer that returns YM_OK has put on the line.
use stm32f746g_disco.Prelude.{
  ℕ, zero, suc, ◌≤◌, ◌≡◌, refl, sym, ap, ◌∙◌, subst, ◌≢◌, List, [], ◌∷◌, ◌++◌, append_assoc,
  append-nil, replicate, Bytes,
}
use stm32f746g_disco.Ymodem.{
  eot, block_retries, Link, Result, ok, err_cancel, err_timeout, err_source, err_io, frame,
  send_block, send_eot, wait_loop, listen, Heard, wanted, cancelled, stray, silent, on_wait, crc_c,
  Phase, going, stopped, stuck, ◌>>=◌, checked, waited,
}
use stm32f746g_disco.Ymodem.Wire.{Copied, send_loop-Copied, listen-wire}

-- The buffers come in this order, each at least once and at most `most` times again.
pub data Repeats (most : ℕ) : List Bytes → List Bytes → Type 0 where
  nothing_more : Repeats most [] []
  copies :
      {ps w : List Bytes} (n : ℕ) (b : Bytes)
      → n ≤ most
      → Repeats most ps w
      → Repeats most (b ∷ ps) (replicate (suc n) b ++ w)

Repeats-append :
    {most : ℕ} {ps qs v w : List Bytes}
    → Repeats most ps v
    → Repeats most qs w
    → Repeats most (ps ++ qs) (v ++ w)
Repeats-append nothing_more s = s
Repeats-append {most} {w = w} (copies {w = v} n b le r) s =
    subst (Repeats most _) (sym (append_assoc (replicate (suc n) b) v w))
      (copies n b le (Repeats-append r s))

-- between two states of the line these buffers were put, with their repeats
abbrev pub Sent : List Bytes → Link → Link → Type 0
Sent ps l m = (w : List Bytes) × Repeats block_retries ps w × (m.wire ≡ l.wire ++ w)

pub Sent-append :
    (ps qs : List Bytes) (l m n : Link) → Sent ps l m → Sent qs m n → Sent (ps ++ qs) l n
Sent-append ps qs l m n (v, r, e) (w, s, d) =
    (v ++ w, Repeats-append r s, d ∙ ap (λ x. x ++ w) e ∙ append_assoc l.wire v w)

pub Sent-none : (l m : Link) → m.wire ≡ l.wire → Sent [] l m
Sent-none l m e = ([], nothing_more, e ∙ sym (append-nil l.wire))

Sent-Copied : (b : Bytes) (l m : Link) → Copied block_retries b l m → Sent (b ∷ []) l m
Sent-Copied b l m (n, le, e) = (
  replicate (suc n) b ++ [],
  copies n b le nothing_more,
  e ∙ ap (λ x. l.wire ++ x) (sym (append-nil (replicate (suc n) b))),
)

-- What holds where a phase goes on; where it stops, it has not succeeded.
abbrev pub Goes : (Link → Type 0) → Phase → Type 0
Goes P (going m) = P m
Goes P (stopped r m) = r ≢ ok
Goes P stuck = Unit {0}

pub then-Goes :
    (P Q : Link → Type 0) (x : Phase) (k : Link → Phase)
    → Goes P x
    → ((m : Link) → P m → Goes Q (k m))
    → Goes Q (x >>= k)
then-Goes P Q (going m) k h f = f m h
then-Goes P Q (stopped r m) k h f = h
then-Goes P Q stuck k h f = tt

pub checked-Goes :
    (P : Link → Type 0) (x : Result × Link) → ((m : Link) → x ≡ (ok, m) → P m) → Goes P (checked x)
checked-Goes P (ok, m) f = f m refl
checked-Goes P (err_cancel, m) f = λ e. cc
checked-Goes P (err_timeout, m) f = λ e. cc
checked-Goes P (err_source, m) f = λ e. cc
checked-Goes P (err_io, m) f = λ e. cc

pub send_block-Goes :
    (kind seq : ℕ) (d : Bytes) (l : Link)
    → Goes (Sent (frame kind seq d ∷ []) l) (checked (send_block kind seq d l))
unfolding send_block
send_block-Goes kind seq d l =
    checked-Goes (Sent (frame kind seq d ∷ []) l) (send_block kind seq d l) (λ m e.
      Sent-Copied (frame kind seq d) l m (send_loop-Copied block_retries (frame kind seq d) l e))

pub send_eot-Goes : (l : Link) → Goes (Sent ((eot ∷ []) ∷ []) l) (checked (send_eot l))
unfolding send_eot
send_eot-Goes l =
    checked-Goes (Sent ((eot ∷ []) ∷ []) l) (send_eot l)
      (λ m e. Sent-Copied (eot ∷ []) l m (send_loop-Copied block_retries (eot ∷ []) l e))

-- Waiting puts nothing on the line.
on_wait-Goes :
    (f k : ℕ) (l : Link) (x : Heard × Link)
    → x.1.wire ≡ l.wire
    → ((j : ℕ) (m : Link) → m.wire ≡ l.wire → Goes (Sent [] l) (waited (wait_loop f j m)))
    → Goes (Sent [] l) (waited (on_wait (wait_loop f) k x))
on_wait-Goes f k l (wanted, m) h ih = Sent-none l m h
on_wait-Goes f k l (cancelled, m) h ih = λ e. cc
on_wait-Goes f k l (stray, m) h ih = ih k m h
on_wait-Goes f zero l (silent, m) h ih = λ e. cc
on_wait-Goes f (suc k) l (silent, m) h ih = ih k m h

pub wait_loop-Goes :
    (f k : ℕ) (l m : Link) → m.wire ≡ l.wire → Goes (Sent [] l) (waited (wait_loop f k m))
unfolding wait_loop
wait_loop-Goes zero k l m h = tt
wait_loop-Goes (suc f) k l m h =
    on_wait-Goes f k l (listen crc_c m) (listen-wire crc_c m ∙ h)
      (λ j n e. wait_loop-Goes f j l n e)
