-- ===== src/Uart/Ring/Refine.antt =====
-- A client of the ring sees a queue of bounded length, and nothing else.
use stm32f746g_disco.Prelude.{
  ℕ, ◌-◌, ◌<◌, min, ◌≡◌, refl, sym, ap, ap₂, ◌∙◌, subst, Bool, true, false, Option, none, some,
  List, [], ◌∷◌, ◌++◌, arith, ◌==◌, if◌then◌else◌, eq→==, ne→==, length, take, drop, Bytes,
}
use stm32f746g_disco.Uart.Ring.{
  UartRing, cli_uart_ring_init, cli_uart_ring_count, cli_uart_ring_put, cli_uart_ring_get,
  cli_uart_ring_put_buf, cli_uart_ring_get_buf,
}
use stm32f746g_disco.Uart.Ring.Queue.{
  IsRing, contents, room, Puts, put-Puts, Gets, get-Gets, Stores, put_buf-Stores, Drains,
  get_buf-Drains, length-contents,
}

pub data Op : Type 0 where
  put_one : ℕ → Op
  get_one : Op
  put_all : Bytes → Op
  get_all : ℕ → Op
  ask : Op

-- what a call returns: a count or a flag, and the bytes that go out
abbrev pub Reply : Type 0
Reply = ℕ × Bytes

abbrev pub flag : Bool → ℕ
flag b = if b then 1 else 0

abbrev pub got : Option ℕ → Reply
got none = (0, [])
got (some b) = (1, b ∷ [])

-- a call on the ring
abbrev pub on_ring : Op → UartRing → Reply × UartRing
on_ring (put_one b) r = let (ok, r') = cli_uart_ring_put r b in ((flag ok, []), r')
on_ring get_one r = let (o, r') = cli_uart_ring_get r in (got o, r')
on_ring (put_all d) r = let (n, r') = cli_uart_ring_put_buf r d in ((n, []), r')
on_ring (get_all n) r = let (d, r') = cli_uart_ring_get_buf r n in ((length d, d), r')
on_ring ask r = ((cli_uart_ring_count r, []), r)

abbrev pub first : Bytes → Option ℕ
first [] = none
first (b ∷ q) = some b

-- the same call on a queue that holds at most `c` bytes
abbrev pub on_queue : ℕ → Op → Bytes → Reply × Bytes
on_queue c (put_one b) q = if length q == c then ((0, []), q) else ((1, []), q ++ (b ∷ []))
on_queue c get_one q = (got (first q), drop 1 q)
on_queue c (put_all d) q =
    ((min (length d) (c - length q), []), q ++ take (min (length d) (c - length q)) d)
on_queue c (get_all n) q = ((length (take n q), take n q), drop n q)
on_queue c ask q = ((length q, []), q)

abbrev pub ring_replies : List Op → UartRing → List Reply
ring_replies [] r = []
ring_replies (o ∷ os) r = let (a, r') = on_ring o r in a ∷ ring_replies os r'

abbrev pub queue_replies : ℕ → List Op → Bytes → List Reply
queue_replies c [] q = []
queue_replies c (o ∷ os) q = let (a, q') = on_queue c o q in a ∷ queue_replies c os q'

-- One call does on the ring what it does on the queue.
abbrev Agrees : ℕ → Reply × UartRing → Reply × Bytes → Type 0
Agrees s p e = (p.0 ≡ e.0) × IsRing p.1 × (p.1.size ≡ s) × (contents p.1 ≡ e.1)

put-Agrees :
    (r : UartRing) (b : ℕ) (p : Bool × UartRing)
    → IsRing r
    → Puts r b p
    → Agrees r.size ((flag p.0, []), p.1) (on_queue (room r) (put_one b) (contents r))
put-Agrees r b (true, r') i h =
    rw (ne→== (length (contents r)) (room r) (λ e. absurd (omega (arith, h.3))))
      (refl, h.0, h.1, h.2)
put-Agrees r b (false, r') i h =
    rw (eq→== (length (contents r)) (room r) h.1)
      (refl, subst IsRing (sym h.0) i, ap (λ q. q.size) h.0, ap contents h.0)

get-Agrees :
    (r : UartRing) (p : Option ℕ × UartRing)
    → IsRing r
    → Gets r p
    → Agrees r.size (got p.0, p.1) (on_queue (room r) get_one (contents r))
get-Agrees r (none, r') i h =
    rw h.1 (refl, subst IsRing (sym h.0) i, ap (λ q. q.size) h.0, ap contents h.0 ∙ h.1)
get-Agrees r (some b, r') i h = rw h.2 (refl, h.0, h.1, refl)

on_ring-Agrees :
    (o : Op) (r : UartRing)
    → IsRing r
    → Agrees r.size (on_ring o r) (on_queue (room r) o (contents r))
on_ring-Agrees (put_one b) r i = put-Agrees r b (cli_uart_ring_put r b) i (put-Puts r b i)
on_ring-Agrees get_one r i = get-Agrees r (cli_uart_ring_get r) i (get-Gets r i)
on_ring-Agrees (put_all d) r i = (
  ap (λ n. (n, [])) s.stored,
  s.ring,
  s.same_size,
  s.behind ∙ ap (λ n. contents r ++ take n d) s.stored,
)
  where
    s : Stores r d (cli_uart_ring_put_buf r d)
    s = put_buf-Stores d r i
on_ring-Agrees (get_all n) r i = (ap (λ d. (length d, d)) s.copied, s.ring, s.same_size, s.left)
  where
    s : Drains r n (cli_uart_ring_get_buf r n)
    s = get_buf-Drains n r i
on_ring-Agrees ask r i = (ap (λ n. (n, [])) (sym (length-contents r)), i, refl, refl)

replies_from :
    (os : List Op) (r : UartRing) (q : Bytes) (s : ℕ)
    → IsRing r
    → r.size ≡ s
    → contents r ≡ q
    → ring_replies os r ≡ queue_replies (s - 1) os q
replies_from [] r q s i z e = refl
replies_from (o ∷ os) r q s i z e =
    ap₂ ◌∷◌ (a.0 ∙ ap₂ (λ c x. (on_queue c o x).0) (ap (λ c. c - 1) z) e) (
      replies_from os (on_ring o r).1 (on_queue (s - 1) o q).1 s a.1 (a.2 ∙ z)
        (a.3 ∙ ap₂ (λ c x. (on_queue c o x).1) (ap (λ c. c - 1) z) e))
  where
    a : Agrees r.size (on_ring o r) (on_queue (room r) o (contents r))
    a = on_ring-Agrees o r i

-- A new ring of at least one slot answers every sequence of calls as an empty queue of one byte less
-- does.
pub init-replies :
    (buf : ℕ → ℕ) (size : ℕ) (os : List Op)
    → 0 < size
    → ring_replies os (cli_uart_ring_init buf size) ≡ queue_replies (size - 1) os []
init-replies buf size os h =
    replies_from os (cli_uart_ring_init buf size) [] size (record { head_lt = h; tail_lt = h }) refl
      refl
