-- ===== src/Uart/Ring/Queue.antt =====
-- The byte ring as a bounded queue: what each operation does to the bytes that are stored.
use stm32f746g_disco.Prelude.{
  ℕ, zero, suc, ◌+◌, ◌-◌, ◌<◌, min, ◌≡◌, refl, sym, ap, ap₂, ◌∙◌, subst, ◌≢◌, inl, inr, Bool, true,
  false, Option, none, some, [], ◌∷◌, ◌++◌, append_assoc, append-nil, arith, ltb, leb, ◌==◌,
  if◌then◌else◌, ==→eq, ==→ne, Bool-cases, length, take, drop, length-append, Bytes,
}
use stm32f746g_disco.Memory.{write, write_self, write_ne}
use stm32f746g_disco.Uart.Ring.{
  UartRing, cli_uart_ring_count, cli_uart_ring_put, cli_uart_ring_get, cli_uart_ring_put_buf,
  cli_uart_ring_get_buf, store,
}
use stm32f746g_disco.Uart.Ring.Index.{
  next, pos, run_from, next_lt, next_mod, pos_value, pos_ne, length-run_from, run_from-snoc,
  run_from-same,
}

pub record IsRing (r : UartRing) : Type 0 where
  pub head_lt : r.head < r.size
  pub tail_lt : r.tail < r.size

-- the stored bytes, the oldest first
abbrev pub contents : UartRing → Bytes
contents r = run_from r.buf r.size r.tail (cli_uart_ring_count r)

-- how many bytes a ring can hold
abbrev pub room : UartRing → ℕ
room r = r.size - 1

pub count_lt : (r : UartRing) → IsRing r → cli_uart_ring_count r < r.size
count_lt r i = ground (arith, i.head_lt, i.tail_lt)

-- The head stands behind the stored bytes.
pub pos_head : (r : UartRing) → IsRing r → pos r.size r.tail (cli_uart_ring_count r) ≡ r.head
pos_head r i =
    pos_value r.size r.tail (cli_uart_ring_count r) i.tail_lt (count_lt r i)
    ∙ wrapped r.head r.tail r.size i.head_lt i.tail_lt
  where
    wrapped :
        (h t s : ℕ)
        → h < s
        → t < s
        → (if ltb (t + (if leb t h then h - t else s - t + h)) s
            then t + (if leb t h then h - t else s - t + h)
            else t + (if leb t h then h - t else s - t + h) - s)
          ≡ h
    wrapped h t s a b = ground arith

-- Storing a byte puts it behind the others.
pub store-IsRing : (r : UartRing) (b : ℕ) → IsRing r → IsRing (store r b (next r.size r.head))
store-IsRing r b i = record { head_lt = next_lt r.size r.head i.head_lt; tail_lt = i.tail_lt }

count-store :
    (r : UartRing) (b : ℕ)
    → IsRing r
    → (next r.size r.head == r.tail) ≡ false
    → cli_uart_ring_count (store r b (next r.size r.head)) ≡ suc (cli_uart_ring_count r)
count-store r b i e =
    raised r.head r.tail r.size i.head_lt i.tail_lt (==→ne (next r.size r.head) r.tail e)
  where
    raised :
        (h t s : ℕ)
        → h < s
        → t < s
        → next s h ≢ t
        → (if leb t (next s h) then next s h - t else s - t + next s h)
          ≡ suc (if leb t h then h - t else s - t + h)
    raised h t s a b n = ground arith

pub contents-store :
    (r : UartRing) (b : ℕ)
    → IsRing r
    → (next r.size r.head == r.tail) ≡ false
    → contents (store r b (next r.size r.head)) ≡ contents r ++ (b ∷ [])
contents-store r b i e =
    ap (run_from new r.size r.tail) (count-store r b i e)
    ∙ sym (run_from-snoc new r.size r.tail (cli_uart_ring_count r))
    ∙ ap₂ (λ xs x. xs ++ (x ∷ []))
        (run_from-same r.buf new r.size r.tail (cli_uart_ring_count r) kept)
        (ap new (pos_head r i) ∙ write_self r.buf r.head b)
  where
    new : ℕ → ℕ
    new = write r.buf r.head b

    kept :
        (j : ℕ)
        → j < cli_uart_ring_count r
        → new (pos r.size r.tail j) ≡ r.buf (pos r.size r.tail j)
    kept j k = write_ne r.buf r.head b (pos r.size r.tail j) (λ q.
        pos_ne r.size r.tail j (cli_uart_ring_count r) i.tail_lt (count_lt r i) k
          (q ∙ sym (pos_head r i)))

-- A put stores its byte behind the others, unless they fill the ring.
abbrev pub Puts : UartRing → ℕ → Bool × UartRing → Type 0
Puts r b (true, r') =
    IsRing r'
    × (r'.size ≡ r.size)
    × (contents r' ≡ contents r ++ (b ∷ []))
    × (length (contents r) < room r)
    × (r'.tail ≡ r.tail)
Puts r b (false, r') = (r' ≡ r) × (length (contents r) ≡ room r)

pub length-contents : (r : UartRing) → length (contents r) ≡ cli_uart_ring_count r
length-contents r = length-run_from r.buf r.size r.tail (cli_uart_ring_count r)

full : (h t s : ℕ) → h < s → t < s → next s h ≡ t → (if leb t h then h - t else s - t + h) ≡ s - 1
full h t s a b e = ground arith

has_room :
    (h t s : ℕ) → h < s → t < s → next s h ≢ t → (if leb t h then h - t else s - t + h) < s - 1
has_room h t s a b e = ground arith

pub put-Puts : (r : UartRing) (b : ℕ) → IsRing r → Puts r b (cli_uart_ring_put r b)
unfolding cli_uart_ring_put
put-Puts r b i = rw (next_mod r.size r.head i.head_lt) cases
  where
    next_head : ℕ
    next_head = next r.size r.head

    cases : Puts r b (if next_head == r.tail then (false, r) else (true, store r b next_head))
    cases = elim (Bool-cases (next_head == r.tail)) [
      | inl e ↦ rw e (
        refl,
        length-contents r
            ∙ full r.head r.tail r.size i.head_lt i.tail_lt (==→eq next_head r.tail e),
      )
      | inr e ↦ rw e (
        store-IsRing r b i,
        refl,
        contents-store r b i e,
        subst (λ n. n < room r) (sym (length-contents r))
            (has_room r.head r.tail r.size i.head_lt i.tail_lt (==→ne next_head r.tail e)),
        refl,
      )
    ]

-- A get takes the oldest byte, unless there is none.
abbrev pub Gets : UartRing → Option ℕ × UartRing → Type 0
Gets r (none, r') = (r' ≡ r) × (contents r ≡ [])
Gets r (some b, r') = IsRing r' × (r'.size ≡ r.size) × (contents r ≡ b ∷ contents r')

empty : (h t s : ℕ) → t ≡ h → (if leb t h then h - t else s - t + h) ≡ 0
empty h t s e = ground arith

pub get-Gets : (r : UartRing) → IsRing r → Gets r (cli_uart_ring_get r)
unfolding cli_uart_ring_get
get-Gets r i = rw (next_mod r.size r.tail i.tail_lt) cases
  where
    next_tail : ℕ
    next_tail = next r.size r.tail

    lowered :
        (h t s : ℕ)
        → h < s
        → t < s
        → t ≢ h
        → (if leb t h then h - t else s - t + h)
          ≡ suc (if leb (next s t) h then h - next s t else s - next s t + h)
    lowered h t s a b e = ground arith

    cases : Gets r (
        if r.tail == r.head
        then (none, r)
        else (some (r.buf r.tail), record r { tail = next_tail }))
    cases = elim (Bool-cases (r.tail == r.head)) [
      | inl e ↦ rw e (
        refl,
        ap (run_from r.buf r.size r.tail) (empty r.head r.tail r.size (==→eq r.tail r.head e)),
      )
      | inr e ↦ rw e (
        record { head_lt = i.head_lt; tail_lt = next_lt r.size r.tail i.tail_lt },
        refl,
        ap (run_from r.buf r.size r.tail)
            (lowered r.head r.tail r.size i.head_lt i.tail_lt (==→ne r.tail r.head e)),
      )
    ]

-- As many bytes of `d` as there was room for were stored.
pub record Stores (r : UartRing) (d : Bytes) (p : ℕ × UartRing) : Type 0 where
  pub ring : IsRing p.1
  pub same_size : p.1.size ≡ r.size
  pub same_tail : p.1.tail ≡ r.tail
  pub stored : p.0 ≡ min (length d) (room r - length (contents r))
  pub behind : contents p.1 ≡ contents r ++ take p.0 d

-- the length of a list with one element more
length-snoc : (xs ys : Bytes) (b : ℕ) → ys ≡ xs ++ (b ∷ []) → length ys ≡ suc (length xs)
length-snoc xs ys b e = ap length e ∙ length-append xs (b ∷ []) ∙ omega arith

Stores-case :
    (r : UartRing) (b : ℕ) (d : Bytes)
    → IsRing r
    → ((r' : UartRing) → IsRing r' → Stores r' d (cli_uart_ring_put_buf r' d))
    → (p : Bool × UartRing) → Puts r b p
    → Stores r (b ∷ d) (elim p.0 as (λ x. ℕ × UartRing) [
      | false ↦ (0, r)
      | true ↦ (suc (cli_uart_ring_put_buf p.1 d).0, (cli_uart_ring_put_buf p.1 d).1)
    ])
Stores-case r b d i rest (true, r') h = record {
  ring = (rest r' h.0).ring;
  same_size = (rest r' h.0).same_size ∙ h.1;
  same_tail = (rest r' h.0).same_tail ∙ h.4;
  stored =
      counted (length (contents r)) (length (contents r')) r.size r'.size
        (length-snoc (contents r) (contents r') b h.2) h.1 h.3 (rest r' h.0).stored;
  behind =
      (rest r' h.0).behind
      ∙ ap (◌++ (take n d)) h.2
      ∙ append_assoc (contents r) (b ∷ []) (take n d);
}
  where
    n : ℕ
    n = (cli_uart_ring_put_buf r' d).0

    counted :
        (l l' s s' : ℕ)
        → l' ≡ suc l
        → s' ≡ s
        → l < s - 1
        → n ≡ min (length d) (s' - 1 - l')
        → suc n ≡ min (suc (length d)) (s - 1 - l)
    counted l l' s s' a e k q = ground arith
Stores-case r b d i rest (false, r') h = record {
  ring = i;
  same_size = refl;
  same_tail = refl;
  stored = omega (arith, h.1);
  behind = sym (append-nil (contents r));
}

pub put_buf-Stores : (d : Bytes) (r : UartRing) → IsRing r → Stores r d (cli_uart_ring_put_buf r d)
unfolding cli_uart_ring_put_buf
put_buf-Stores [] r i = record {
  ring = i;
  same_size = refl;
  same_tail = refl;
  stored = omega arith;
  behind = sym (append-nil (contents r));
}
put_buf-Stores (b ∷ d) r i =
    Stores-case r b d i (put_buf-Stores d) (cli_uart_ring_put r b) (put-Puts r b i)

-- The oldest bytes, `n` or all there are, were copied out.
pub record Drains (r : UartRing) (n : ℕ) (p : Bytes × UartRing) : Type 0 where
  pub ring : IsRing p.1
  pub same_size : p.1.size ≡ r.size
  pub copied : p.0 ≡ take n (contents r)
  pub left : contents p.1 ≡ drop n (contents r)

Drains-case :
    (r : UartRing) (n : ℕ)
    → IsRing r
    → ((r' : UartRing) → IsRing r' → Drains r' n (cli_uart_ring_get_buf r' n))
    → (p : Option ℕ × UartRing) → Gets r p
    → Drains r (suc n) (elim p.0 as (λ x. Bytes × UartRing) [
      | none ↦ ([], r)
      | some b ↦ (b ∷ (cli_uart_ring_get_buf p.1 n).0, (cli_uart_ring_get_buf p.1 n).1)
    ])
Drains-case r n i rest (none, r') h = record {
  ring = i;
  same_size = refl;
  copied = rw h.1;
  left = rw h.1;
}
Drains-case r n i rest (some b, r') h = record {
  ring = (rest r' h.0).ring;
  same_size = (rest r' h.0).same_size ∙ h.1;
  copied = ap (◌∷◌ b) (rest r' h.0).copied ∙ ap (take (suc n)) (sym h.2);
  left = (rest r' h.0).left ∙ ap (drop (suc n)) (sym h.2);
}

pub get_buf-Drains : (n : ℕ) (r : UartRing) → IsRing r → Drains r n (cli_uart_ring_get_buf r n)
unfolding cli_uart_ring_get_buf
get_buf-Drains zero r i = record { ring = i; same_size = refl; copied = refl; left = refl }
get_buf-Drains (suc n) r i =
    Drains-case r n i (get_buf-Drains n) (cli_uart_ring_get r) (get-Gets r i)
