-- ===== src/Core/Send/Deliver.antt =====
-- Where the transport takes the bytes of a send in the end.
use stm32f746g_disco.Prelude.{
  ℕ, zero, suc, ◌+◌, ◌≤◌, min, ◌≡◌, refl, sym, ap, ◌∙◌, subst, ◌≢◌, ◌⊎◌, inl, inr, Bool, true,
  false, not, ◌&&◌, Option, none, some, List, [], ◌∷◌, ◌++◌, arith, ◌==◌, if◌then◌else◌, eq→==,
  ne→==, absurd_bool, length, take, drop, length-drop, Bytes,
}
use stm32f746g_disco.Core.Send.{
  Turn, Sender, returns, again, job_waits, woken_by, waits, took, written, send_round, send_loop_on,
  cli_tx_send_blocking,
}
use stm32f746g_disco.Core.Send.Account.{Accounts, send_loop-Accounts}

-- a turn without a cancel, where `write` does not fail and a flag other than the kill ends a wait
pub record IsServed (t : Turn) : Type 0 where
  pub takes : ℕ
  pub rx : Bool
  pub wrote : t.wrote ≡ some takes
  pub unlatched : t.cancel_req ≡ false
  pub unpolled : t.polled ≡ false
  pub wakes : t.woken ≡ some (false, rx)
  pub still_unpolled : t.polled_after ≡ false

abbrev pub AreServed : List Turn → Type 0
AreServed [] = Unit
AreServed (t ∷ ts) = IsServed t × AreServed ts

-- the bytes that the transport can take in the turns
abbrev offered : Option ℕ → ℕ
offered none = 0
offered (some n) = n

abbrev pub capacity : List Turn → ℕ
capacity [] = 0
capacity (t ∷ ts) = offered t.wrote + capacity ts

and_false : (b : Bool) → (b && false) ≡ false
and_false true = refl
and_false false = refl

if_false : {A : Type 0} (b : Bool) (x y : A) → b ≡ false → (if b then x else y) ≡ y
if_false true x y e = absurd_bool (sym e)
if_false false x y e = refl

if_true : {A : Type 0} (b : Bool) (x y : A) → b ≡ true → (if b then x else y) ≡ x
if_true true x y e = refl
if_true false x y e = absurd_bool e

ask : (t : Turn) (d : Bytes) (s : Sender) → IsServed t → send_round t d s ≡ written t d s t.wrote
ask t d s v =
    if_false (s.dispatching && t.cancel_req) (returns false s) (written t d s t.wrote)
      (ap (λ b. s.dispatching && b) v.unlatched ∙ and_false s.dispatching)

woken_again :
    (t : Turn) (d : Bytes) (s : Sender) (v : IsServed t) → woken_by t d s t.woken ≡ again d s
woken_again t d s v =
    ap (woken_by t d s) v.wakes
    ∙ if_false (not s.raw && v.rx && t.polled_after) (returns false s) (again d s)
        (ap (λ b. not s.raw && v.rx && b) v.still_unpolled ∙ and_false (not s.raw && v.rx))

waits_again :
    (t : Turn) (d : Bytes) (s : Sender) → IsServed t → s.is_job ≡ false → waits t d s ≡ again d s
waits_again t d s v j =
    if_false s.is_job (job_waits t d s)
      (if s.dispatching && not s.raw && t.polled then returns false s else woken_by t d s t.woken) j
    ∙ if_false (s.dispatching && not s.raw && t.polled) (returns false s) (woken_by t d s t.woken) (
        ap (λ b. s.dispatching && not s.raw && b) v.unpolled
        ∙ and_false (s.dispatching && not s.raw))
    ∙ woken_again t d s v

asked :
    (t : Turn) (d : Bytes) (s : Sender) (v : IsServed t)
    → send_round t d s ≡ written t d s (some v.takes)
asked t d s v = ask t d s v ∙ ap (written t d s) v.wrote

round_waits :
    (t : Turn) (d : Bytes) (s : Sender) (v : IsServed t)
    → s.is_job ≡ false
    → v.takes ≡ 0
    → send_round t d s ≡ again d s
round_waits t d s v j z =
    asked t d s v
    ∙ if_true (v.takes == 0) (waits t d s) (took t d v.takes s) (eq→== v.takes 0 z)
    ∙ waits_again t d s v j

round_takes :
    (t : Turn) (d : Bytes) (s : Sender) (v : IsServed t)
    → v.takes ≢ 0
    → send_round t d s ≡ took t d v.takes s
round_takes t d s v z =
    asked t d s v ∙ if_false (v.takes == 0) (waits t d s) (took t d v.takes s) (ne→== v.takes 0 z)

abbrev Ends : Option (Bool × Sender) → Type 0
Ends r = (s' : Sender) × (r ≡ some (true, s'))

step_on :
    (t : Turn) (ts : List Turn) (b : ℕ) (d d' : Bytes) (s s' : Sender)
    → send_round t (b ∷ d) s ≡ again d' s'
    → send_loop_on (t ∷ ts) (b ∷ d) s ≡ send_loop_on ts d' s'
unfolding send_loop_on
step_on t ts b d d' s s' e =
    ap (λ m. elim m [ returns ok s1 ↦ some (ok, s1) | again d1 s1 ↦ send_loop_on ts d1 s1 ]) e

left_over : (n l : ℕ) (d : Bytes) → length d ≤ n + l → length (drop (min n (length d)) d) ≤ l
left_over n l d h = omega (arith, length-drop (min n (length d)) d)

no_room : (n : ℕ) → suc n ≤ 0 → ⊥
no_room n h = omega (arith, h)

zero_or : (n : ℕ) → (n ≡ 0) ⊎ (n ≢ 0)
zero_or zero = inl refl
zero_or (suc n) = inr (λ e. omega (arith, e))

send_loop-Ends :
    (ts : List Turn) (d : Bytes) (s : Sender)
    → AreServed ts
    → s.is_job ≡ false
    → length d ≤ capacity ts
    → Ends (send_loop_on ts d s)
unfolding send_loop_on
send_loop-Ends ts [] s v j h = (s, refl)
send_loop-Ends [] (b ∷ d) s v j h = elim (no_room (length d) h) [ ]
send_loop-Ends (t ∷ ts) (b ∷ d) s v j h = elim n_cases [
  | inl z ↦
      subst Ends (sym (step_on t ts b d (b ∷ d) s s (round_waits t (b ∷ d) s v.0 j z)))
        (send_loop-Ends ts (b ∷ d) s v.1 j (omega (arith, z, ap offered v.0.wrote, h)))
  | inr z ↦ subst Ends (sym (step_on t ts b d rest s after (round_takes t (b ∷ d) s v.0 z))) (
      send_loop-Ends ts rest after v.1 j (
        left_over v.0.takes (capacity ts) (b ∷ d)
          (subst (λ w. length (b ∷ d) ≤ w + capacity ts) (ap offered v.0.wrote) h)))
]
  where
    n_cases : (v.0.takes ≡ 0) ⊎ (v.0.takes ≢ 0)
    n_cases = zero_or v.0.takes

    rest : Bytes
    rest = drop (min v.0.takes (length (b ∷ d))) (b ∷ d)

    after : Sender
    after = record s {
      stall_start = if s.is_job then t.now else s.stall_start;
      out = s.out ++ take (min v.0.takes (length (b ∷ d))) (b ∷ d);
    }

-- Of an interactive instance, which is not a background job: where in no round a cancel is latched or
-- polled, the transport's `write` never fails, every wait is ended by a flag that is not the kill, and
-- not by its timeout, and the transport takes in all rounds as many bytes as there are, a send returns
-- 0, exactly the data has gone out, and none is counted as dropped.
pub send-delivers :
    (now : ℕ) (ts : List Turn) (d : Bytes) (s : Sender)
    → AreServed ts
    → s.is_job ≡ false
    → length d ≤ capacity ts
    → (s' : Sender) × (cli_tx_send_blocking now ts d s ≡ some (true, s'))
      × (s'.out ≡ d)
      × (s'.tx_dropped ≡ s.tx_dropped)
send-delivers now ts d s v j h = (e.0, e.1, a.0, a.1)
  where
    begun : Sender
    begun = record s { stall_start = if s.is_job then now else 0; out = [] }

    e : Ends (send_loop_on ts d begun)
    e = send_loop-Ends ts d begun v j h

    a : Accounts ts d begun (true, e.0)
    a = send_loop-Accounts ts d begun (true, e.0) e.1
