-- ===== src/Core/Read/Order.antt =====
-- The order of the bytes that `cli_read_byte` returns.
use stm32f746g_disco.Prelude.{
  ℕ, ◌≡◌, refl, sym, subst, Bool, true, false, ◌||◌, Option, none, some, List, [], ◌∷◌, ◌++◌,
  append_assoc, leb, ◌==◌, if◌then◌else◌, some_eq, some-none, Bytes,
}
use stm32f746g_disco.Core.Read.{
  Look, Got, byte, timed_out, stopping, elapsed, ended, looked, read_loop, cli_read_byte,
}

-- The byte returned, the bytes left in the ring and those that come later are the bytes in order;
-- where no byte is returned, the ring is empty.
abbrev pub Reads : Bytes → Got × Bytes → Type 0
Reads all (byte b, rest) = (later : Bytes) × (all ≡ (b ∷ rest) ++ later)
Reads all (timed_out, rest) = rest ≡ []
Reads all (stopping, rest) = rest ≡ []

abbrev pub arrivals : List Look → Bytes
arrivals [] = []
arrivals (l ∷ ls) = l.arrived ++ arrivals ls

waited :
    (b : Bool) (k : Option Bool) (all : Bytes) (later : Option (Got × Bytes)) (r : Got × Bytes)
    → (later ≡ some r → Reads all r)
    → (if b then some (timed_out, []) else ended k later) ≡ some r
    → Reads all r
waited true k all later r g e = subst (Reads all) (some_eq e) refl
waited false none all later r g e = subst (Reads all) (some_eq e) refl
waited false (some true) all later r g e = subst (Reads all) (some_eq e) refl
waited false (some false) all later r g e = g e

looked-Reads :
    (l : Look) (start timeout : ℕ) (xs more : Bytes) (later : Option (Got × Bytes))
    (r : Got × Bytes)
    → (later ≡ some r → Reads more r)
    → looked l start timeout xs later ≡ some r
    → Reads (xs ++ more) r
looked-Reads l start timeout (b ∷ rest) more later r g e =
    subst (Reads (b ∷ rest ++ more)) (some_eq e) (more, refl)
looked-Reads l start timeout [] more later r g e =
    waited (timeout == 0 || leb timeout (elapsed l.now start)) l.killed more later r g e

-- Whatever the clock and the flags answer: where `cli_read_byte` returns a byte, it is the first of
-- those in the ring and those that arrive, and the ring keeps the next ones in order.
pub cli_read_byte-Reads :
    (ls : List Look) (start timeout : ℕ) (rx : Bytes) (r : Got × Bytes)
    → cli_read_byte ls start timeout rx ≡ some r
    → Reads (rx ++ arrivals ls) r
unfolding read_loop
cli_read_byte-Reads [] start timeout rx r e = elim (some-none (sym e)) [ ]
cli_read_byte-Reads (l ∷ ls) start timeout rx r e =
    subst (λ xs. Reads xs r) (append_assoc rx l.arrived (arrivals ls))
      (looked-Reads l start timeout (rx ++ l.arrived) (arrivals ls) (read_loop ls start timeout [])
        r (λ h. cli_read_byte-Reads ls start timeout [] r h) e)
