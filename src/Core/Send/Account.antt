-- ===== src/Core/Send/Account.antt =====
-- What becomes of the bytes of a send.
use stm32f746g_disco.Prelude.{
  ℕ, ◌+◌, ◌-◌, ◌%◌, ◌^◌, min, ◌≡◌, refl, sym, ap, ◌∙◌, subst, ◌⊎◌, inl, inr, Bool, true, false, not,
  ◌&&◌, Option, none, some, List, [], ◌∷◌, ◌++◌, append_assoc, append-nil, leb, ◌==◌, if◌then◌else◌,
  some_eq, some-none, absurd_bool, length, take, take-append-drop, Bytes,
}
use stm32f746g_disco.Core.Send.{
  u32, Turn, Sender, drop_rest, Round, returns, again, budget, job_waits, woken_by, waits, took,
  written, send_round, send_loop_on, cli_tx_send_blocking,
}

-- A cancel is found in the round; the transport fails in the round.
abbrev pub IsCancelled : Turn → Type 0
IsCancelled t = (t.cancel_req ≡ true) ⊎ ((t.polled ≡ true) ⊎ (t.polled_after ≡ true))

abbrev pub IsBroken : Turn → Type 0
IsBroken t = t.wrote ≡ none

abbrev pub SomeTurn : (Turn → Type 0) → List Turn → Type 0
SomeTurn P [] = ⊥
SomeTurn P (t ∷ ts) = P t ⊎ SomeTurn P ts

-- What becomes of the rest of a send that fails: it is counted as dropped; or the transport has failed,
-- which is noted; or a cancel has cut the send short.
abbrev pub Failure : List Turn → Bytes → Sender → Sender → Type 0
Failure ts rest s s' =
    ((s'.tx_dropped ≡ u32 (s.tx_dropped + length rest)) × (s'.tx_failed ≡ s.tx_failed))
    ⊎ (((s'.tx_dropped ≡ s.tx_dropped) × (s'.tx_failed ≡ true) × SomeTurn IsBroken ts)
        ⊎ ((s'.tx_dropped ≡ s.tx_dropped) × (s'.tx_failed ≡ s.tx_failed) × SomeTurn IsCancelled ts))

-- Of the data, a first part has gone out, and all of it where the send succeeds.
abbrev pub Accounts : List Turn → Bytes → Sender → Bool × Sender → Type 0
Accounts ts d s (true, s') =
    (s'.out ≡ s.out ++ d) × (s'.tx_dropped ≡ s.tx_dropped) × (s'.tx_failed ≡ s.tx_failed)
Accounts ts d s (false, s') =
    (rest : Bytes) × (put : Bytes) × (put ++ rest ≡ d)
    × (s'.out ≡ s.out ++ put)
    × Failure ts rest s s'

abbrev RoundOk : Turn → Bytes → Sender → Round → Type 0
RoundOk t d s (returns true s') = ⊥
RoundOk t d s (returns false s') = Accounts (t ∷ []) d s (false, s')
RoundOk t d s (again d' s') =
    (put : Bytes) × (put ++ d' ≡ d)
    × (s'.out ≡ s.out ++ put)
    × (s'.tx_dropped ≡ s.tx_dropped)
    × (s'.tx_failed ≡ s.tx_failed)

dropped : (t : Turn) (d : Bytes) (s : Sender) → RoundOk t d s (returns false (drop_rest d s))
dropped t d s = (d, [], refl, sym (append-nil s.out), inl (refl, refl))

cut : (t : Turn) (d : Bytes) (s : Sender) → IsCancelled t → RoundOk t d s (returns false s)
cut t d s c = (d, [], refl, sym (append-nil s.out), inr (inr (refl, refl, inl c)))

tried : (t : Turn) (d : Bytes) (s : Sender) → RoundOk t d s (again d s)
tried t d s = ([], refl, sym (append-nil s.out), refl, refl)

either :
    (t : Turn) (d : Bytes) (s : Sender) (b : Bool) (x y : Round)
    → (b ≡ true → RoundOk t d s x)
    → RoundOk t d s y
    → RoundOk t d s (if b then x else y)
either t d s true x y p q = p refl
either t d s false x y p q = q

and_true : (a b : Bool) → (a && b) ≡ true → b ≡ true
and_true true b e = e
and_true false b e = absurd_bool e

woken-Ok :
    (t : Turn) (d : Bytes) (s : Sender) (w : Option (Bool × Bool))
    → RoundOk t d s (woken_by t d s w)
woken-Ok t d s none = dropped t d s
woken-Ok t d s (some (kill, rx)) =
    either t d s kill (returns false (drop_rest d s))
      (if not s.raw && rx && t.polled_after then returns false s else again d s)
      (λ _. dropped t d s)
      (either t d s (not s.raw && rx && t.polled_after) (returns false s) (again d s)
        (λ e. cut t d s (inr (inr (and_true (not s.raw && rx) t.polled_after e)))) (tried t d s))

waits-Ok : (t : Turn) (d : Bytes) (s : Sender) → RoundOk t d s (waits t d s)
waits-Ok t d s =
    either t d s s.is_job (job_waits t d s)
      (if s.dispatching && not s.raw && t.polled then returns false s else woken_by t d s t.woken)
      (λ _.
        either t d s (leb budget ((t.now + 2 ^ 32 - s.stall_start) % 2 ^ 32))
          (returns false (drop_rest d s)) (again d s) (λ _. dropped t d s) (tried t d s))
      (either t d s (s.dispatching && not s.raw && t.polled) (returns false s)
        (woken_by t d s t.woken)
        (λ e. cut t d s (inr (inl (and_true (s.dispatching && not s.raw) t.polled e))))
        (woken-Ok t d s t.woken))

written-Ok :
    (t : Turn) (d : Bytes) (s : Sender) (w : Option ℕ)
    → t.wrote ≡ w
    → RoundOk t d s (written t d s w)
written-Ok t d s none e = (d, [], refl, sym (append-nil s.out), inr (inl (refl, refl, inl e)))
written-Ok t d s (some n) e =
    either t d s (n == 0) (waits t d s) (took t d n s) (λ _. waits-Ok t d s)
      (take (min n (length d)) d, take-append-drop (min n (length d)) d, refl, refl, refl)

round-Ok : (t : Turn) (d : Bytes) (s : Sender) → RoundOk t d s (send_round t d s)
round-Ok t d s =
    either t d s (s.dispatching && t.cancel_req) (returns false s) (written t d s t.wrote)
      (λ e. cut t d s (inl (and_true s.dispatching t.cancel_req e))) (written-Ok t d s t.wrote refl)

-- a failure seen from further back
later :
    (ts : List Turn) (t : Turn) (rest : Bytes) (s s' q : Sender)
    → s'.tx_dropped ≡ s.tx_dropped
    → s'.tx_failed ≡ s.tx_failed
    → Failure ts rest s' q
    → Failure (t ∷ ts) rest s q
later ts t rest s s' q k f (inl x) = inl (x.0 ∙ ap (λ n. u32 (n + length rest)) k, x.1 ∙ f)
later ts t rest s s' q k f (inr (inl x)) = inr (inl (x.0 ∙ k, x.1, inr x.2))
later ts t rest s s' q k f (inr (inr x)) = inr (inr (x.0 ∙ k, x.1 ∙ f, inr x.2))

-- a failure of the first round is one of the send
at_once :
    (ts : List Turn) (t : Turn) (d : Bytes) (s q : Sender)
    → Accounts (t ∷ []) d s (false, q)
    → Accounts (t ∷ ts) d s (false, q)
at_once ts t d s q (rest, put, e, o, h) = (rest, put, e, o, of h)
  where
    first : (P : Turn → Type 0) → SomeTurn P (t ∷ []) → SomeTurn P (t ∷ ts)
    first P (inl x) = inl x
    first P (inr x) = absurd x

    of : Failure (t ∷ []) rest s q → Failure (t ∷ ts) rest s q
    of (inl x) = inl x
    of (inr (inl x)) = inr (inl (x.0, x.1, first IsBroken x.2))
    of (inr (inr x)) = inr (inr (x.0, x.1, first IsCancelled x.2))

joined :
    (ts : List Turn) (t : Turn) (d d' put : Bytes) (s s' : Sender) (r : Bool × Sender)
    → put ++ d' ≡ d
    → s'.out ≡ s.out ++ put
    → s'.tx_dropped ≡ s.tx_dropped
    → s'.tx_failed ≡ s.tx_failed
    → Accounts ts d' s' r
    → Accounts (t ∷ ts) d s r
joined ts t d d' put s s' (true, r) e o k f a = (
  a.0 ∙ ap (λ xs. xs ++ d') o ∙ append_assoc s.out put d' ∙ ap (λ xs. s.out ++ xs) e,
  a.1 ∙ k,
  a.2 ∙ f,
)
joined ts t d d' put s s' (false, r) e o k f a = (
  a.0,
  put ++ a.1,
  append_assoc put a.1 a.0 ∙ ap (λ xs. put ++ xs) a.2 ∙ e,
  a.3 ∙ ap (λ xs. xs ++ a.1) o ∙ append_assoc s.out put a.1,
  later ts t a.0 s s' r k f a.4,
)

round_from :
    (ts : List Turn) (t : Turn) (d : Bytes) (s : Sender) (m : Round)
    (f : Bytes → Sender → Option (Bool × Sender)) (r : Bool × Sender)
    → ((d' : Bytes) (s' : Sender) → f d' s' ≡ some r → Accounts ts d' s' r)
    → RoundOk t d s m
    → elim m [ returns ok s' ↦ some (ok, s') | again d' s' ↦ f d' s' ] ≡ some r
    → Accounts (t ∷ ts) d s r
round_from ts t d s (returns true s') f r g k e = elim k [ ]
round_from ts t d s (returns false s') f r g k e =
    subst (λ x. Accounts (t ∷ ts) d s x) (some_eq e) (at_once ts t d s s' k)
round_from ts t d s (again d' s') f r g k e =
    joined ts t d d' k.0 s s' r k.1 k.2 k.3 k.4 (g d' s' e)

-- the loop from any state
pub send_loop-Accounts :
    (ts : List Turn) (d : Bytes) (s : Sender) (r : Bool × Sender)
    → send_loop_on ts d s ≡ some r
    → Accounts ts d s r
unfolding send_loop_on
send_loop-Accounts ts [] s r e =
    subst (λ x. Accounts ts [] s x) (some_eq e) (sym (append-nil s.out), refl, refl)
send_loop-Accounts [] (b ∷ d) s r e = elim (some-none (sym e)) [ ]
send_loop-Accounts (t ∷ ts) (b ∷ d) s r e =
    round_from ts t (b ∷ d) s (send_round t (b ∷ d) s) (send_loop_on ts) r
      (λ d' s' p. send_loop-Accounts ts d' s' r p) (round-Ok t (b ∷ d) s) e

-- Whatever the transport, the clock and the flags answer, the bytes that have gone out when the send
-- returns are a first part of the data. Where it returns 0 they are the data, and neither the count of
-- dropped bytes nor the failure flag has changed. Where it returns -1, the count of dropped bytes has
-- grown by just those left (modulo 2^32); or it has not changed, and either the transport has failed in
-- some round and `tx_failed` is set, or a cancel was found in some round.
pub send-Accounts :
    (now : ℕ) (ts : List Turn) (d : Bytes) (s : Sender) (r : Bool × Sender)
    → cli_tx_send_blocking now ts d s ≡ some r
    → Accounts ts d (record s { stall_start = if s.is_job then now else 0; out = [] }) r
send-Accounts now ts d s r e =
    send_loop-Accounts ts d (record s { stall_start = if s.is_job then now else 0; out = [] }) r e
