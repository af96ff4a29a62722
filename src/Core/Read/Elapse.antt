-- ===== src/Core/Read/Elapse.antt =====
-- That the timed waits end when their time is over, also where the clock has wrapped around.
use stm32f746g_disco.Prelude.{
  ℕ, ◌+◌, ◌%◌, ◌^◌, ◌≤◌, ◌<◌, ◌≡◌, refl, sym, ap, ◌∙◌, subst, Bool, true, false, ◌&&◌, ◌||◌, Option,
  none, some, List, [], ◌∷◌, ◌++◌, arith, leb, ◌==◌, if◌then◌else◌, absurd_bool,
}
use stm32f746g_disco.Core.Read.{elapsed, Nap, sleep_loop, cli_sleep}

le→leb : (a b : ℕ) → a ≤ b → leb a b ≡ true
le→leb a b h = ground arith

-- the time since the start, over a wrap of the 32-bit clock
elapsed-wrap :
    (start e : ℕ) → start < 2 ^ 32 → e < 2 ^ 32 → elapsed ((start + e) % 2 ^ 32) start ≡ e
elapsed-wrap start e a b = omega arith

abbrev Returns {ℓ} : {A : Type ℓ} → Option A → Type ℓ
Returns {A = A} o = (a : A) × (o ≡ some a)

napped :
    (p k : Bool) (w : Option (Bool × Bool)) (a : Bool) (later : Option Bool)
    → Returns later
    → Returns (
        if p
        then some true
        else (if k then some false else elim w [
          | none ↦ some false
          | some (kill, rx) ↦ if kill || (rx && a) then some true else later
        ]))
napped true k w a later h = (true, refl)
napped false true w a later h = (false, refl)
napped false false none a later h = (false, refl)
napped false false (some (true, rx)) a later h = (true, refl)
napped false false (some (false, true)) true later h = (true, refl)
napped false false (some (false, true)) false later h = h
napped false false (some (false, false)) a later h = h

over :
    (p k : Bool) (x : Option Bool)
    → k ≡ true
    → Returns (if p then some true else (if k then some false else x))
over true k x h = (true, refl)
over false true x h = (false, refl)
over false false x h = absurd_bool h

sleep_loop-Returns :
    (early late : List Nap) (n : Nap) (start ticks e : ℕ)
    → start < 2 ^ 32
    → e < 2 ^ 32
    → ticks ≤ e
    → n.now ≡ (start + e) % 2 ^ 32
    → Returns (sleep_loop (early ++ n ∷ late) start ticks)
unfolding sleep_loop
sleep_loop-Returns [] late n start ticks e a b h t =
    over n.polled (leb ticks (elapsed n.now start)) _ (
      le→leb ticks _
        (subst (λ m. ticks ≤ m) (sym (ap (λ m. elapsed m start) t ∙ elapsed-wrap start e a b)) h))
sleep_loop-Returns (x ∷ early) late n start ticks e a b h t =
    napped x.polled (leb ticks (elapsed x.now start)) x.woken x.polled_after _
      (sleep_loop-Returns early late n start ticks e a b h t)

-- Where the clock in some round shows that the ticks are over, also over a wrap of the 32-bit clock,
-- a sleep returns.
pub cli_sleep-returns :
    (early late : List Nap) (n : Nap) (start ticks e : ℕ)
    → start < 2 ^ 32
    → e < 2 ^ 32
    → ticks ≤ e
    → n.now ≡ (start + e) % 2 ^ 32
    → (cut_short : Bool) × (cli_sleep (early ++ n ∷ late) start ticks ≡ some cut_short)
cli_sleep-returns early late n start ticks e a b h t =
    napped false (ticks == 0) (some (false, false)) false
      (sleep_loop (early ++ n ∷ late) start ticks)
      (sleep_loop-Returns early late n start ticks e a b h t)
