-- ===== src/Ymodem/Returns.antt =====
-- That a transfer returns, with any receiver that falls silent in the end.
use stm32f746g_disco.Prelude.{
  ℕ, zero, suc, ◌+◌, ◌-◌, ◌%◌, ◌≤◌, ◌<◌, min, ◌≡◌, refl, ap, ◌≢◌, inl, inr, Bool, true, false, none,
  some, List, [], ◌∷◌, arith, ltb, ◌==◌, if◌then◌else◌, ==→ne, Bool-cases, length, replicate, Bytes,
}
use stm32f746g_disco.Ymodem.{
  Reply, byte, timeout, abort, reply_of, getc, put_on, hear, is_double_can, ack, can, on_heard,
  after_put, send_loop, soh, data_max, block0_len, block_retries, Link, Result, ok, err_cancel,
  err_timeout, err_source, err_io, frame, send_block, send_eot, wait_loop, listen, Heard, wanted,
  cancelled, stray, silent, on_wait, crc_c, Read, Source, Filled, fill, Phase, going, stopped,
  stuck, ◌>>=◌, checked, waited, padded, kind_of, block_round, blocks_loop, build_block0, ym_run,
  ended, ymodem_send, put,
}

-- the answers that are left
abbrev left : Link → ℕ
left l = length l.answers

-- Listening takes no answer back, and an answer that is no use is gone.
abbrev Listens : ℕ → Heard × Link → Type 0
Listens n (wanted, m) = left m ≤ n
Listens n (cancelled, m) = left m ≤ n
Listens n (silent, m) = left m ≤ n
Listens n (stray, m) = left m < n

reply_of-left : (l : Link) (rs : List Reply) → rs ≡ l.answers → left (reply_of l rs).1 ≤ left l
reply_of-left l [] e = omega arith
reply_of-left l (r ∷ rs) e = omega (arith, ap length e)

double_can-Listens : (n : ℕ) (x : Reply × Link) → left x.1 < n → Listens n (is_double_can x)
double_can-Listens n (byte b, m) h = elim (Bool-cases (b == can)) [
  | inl e ↦ rw e (omega (arith, h))
  | inr e ↦ rw e h
]
double_can-Listens n (timeout, m) h = h
double_can-Listens n (abort, m) h = h

-- a byte that came, with the answers behind it
byte-Listens : (w n b : ℕ) (m : Link) → left m < n → Listens n (hear w (byte b, m))
byte-Listens w n b m h = elim (Bool-cases (b == w)) [
  | inl e ↦ rw e (omega (arith, h))
  | inr e ↦ elim (Bool-cases (b == can)) [
    | inl c ↦
        rw (e, c) (double_can-Listens n (getc m) (omega (arith, h, reply_of-left m m.answers refl)))
    | inr c ↦ rw (e, c) h
  ]
]

hear-Listens :
    (w : ℕ) (l : Link) (rs : List Reply)
    → rs ≡ l.answers
    → Listens (left l) (hear w (reply_of l rs))
hear-Listens w l [] e = omega arith
hear-Listens w l (byte b ∷ rs) e =
    byte-Listens w (left l) b (record l { answers = rs }) (omega (arith, ap length e))
hear-Listens w l (timeout ∷ rs) e = omega (arith, ap length e)
hear-Listens w l (abort ∷ rs) e = omega (arith, ap length e)

listen-Listens : (w : ℕ) (l : Link) → Listens (left l) (listen w l)
unfolding listen
listen-Listens w l = hear-Listens w l l.answers refl

put_on-left : (b : Bytes) (l : Link) (fs : List Bool) → left (put_on b l fs).1 ≡ left l
put_on-left b l [] = refl
put_on-left b l (true ∷ fs) = refl
put_on-left b l (false ∷ fs) = refl

on_heard-left :
    (n : ℕ) (again : Link → Result × Link) (x : Heard × Link)
    → Listens n x
    → ((m : Link) → left m ≤ n → left (again m).1 ≤ n)
    → left (on_heard again x).1 ≤ n
on_heard-left n again (wanted, m) h ih = h
on_heard-left n again (cancelled, m) h ih = h
on_heard-left n again (stray, m) h ih = ih m (omega (arith, h))
on_heard-left n again (silent, m) h ih = ih m h

after_put-left :
    (n : ℕ) (again : Link → Result × Link) (x : Bool × Link)
    → left x.1 ≤ n
    → ((m : Link) → left m ≤ n → left (again m).1 ≤ n)
    → left (after_put again x).1 ≤ n
after_put-left n again (true, m) h ih = h
after_put-left n again (false, m) h ih = omega (
  arith,
  h,
  on_heard-left n again (listen ack m) (weaken (listen ack m) (listen-Listens ack m)) ih,
)
  where
    weaken : (x : Heard × Link) → Listens (left m) x → Listens n x
    weaken (wanted, k) a = omega (arith, a, h)
    weaken (cancelled, k) a = omega (arith, a, h)
    weaken (stray, k) a = omega (arith, a, h)
    weaken (silent, k) a = omega (arith, a, h)

send_loop-left : (k n : ℕ) (b : Bytes) (l : Link) → left l ≤ n → left (send_loop k b l).1 ≤ n
unfolding send_loop
send_loop-left zero n b l h =
    after_put-left n (λ m. (err_timeout, m)) (put b l) (omega (arith, h, put_on-left b l l.faults))
      (λ m a. a)
send_loop-left (suc k) n b l h =
    after_put-left n (send_loop k b) (put b l) (omega (arith, h, put_on-left b l l.faults))
      (λ m a. send_loop-left k n b m a)

-- A phase that does not run out of fuel, and leaves at most `n` answers where it goes on.
abbrev Runs : ℕ → Phase → Type 0
Runs n (going m) = left m ≤ n
Runs n (stopped r m) = Unit {0}
Runs n stuck = ⊥

then-Runs :
    (n : ℕ) (x : Phase) (k : Link → Phase)
    → Runs n x
    → ((m : Link) → left m ≤ n → Runs n (k m))
    → Runs n (x >>= k)
then-Runs n (going m) k h f = f m h
then-Runs n (stopped r m) k h f = tt
then-Runs n stuck k h f = h

checked-Runs : (n : ℕ) (x : Result × Link) → left x.1 ≤ n → Runs n (checked x)
checked-Runs n (ok, m) h = h
checked-Runs n (err_cancel, m) h = tt
checked-Runs n (err_timeout, m) h = tt
checked-Runs n (err_source, m) h = tt
checked-Runs n (err_io, m) h = tt

on_wait-Runs :
    (n f k : ℕ) (x : Heard × Link)
    → Listens n x
    → n + k ≤ f
    → ((j : ℕ) (m : Link) → left m + j < f → left m ≤ n → Runs n (waited (wait_loop f j m)))
    → Runs n (waited (on_wait (wait_loop f) k x))
on_wait-Runs n f k (wanted, m) h lt ih = h
on_wait-Runs n f k (cancelled, m) h lt ih = tt
on_wait-Runs n f k (stray, m) h lt ih = ih k m (omega (arith, h, lt)) (omega (arith, h))
on_wait-Runs n f zero (silent, m) h lt ih = tt
on_wait-Runs n f (suc k) (silent, m) h lt ih = ih k m (omega (arith, h, lt)) h

Runs-weaken : (n m : ℕ) (x : Phase) → n ≤ m → Runs n x → Runs m x
Runs-weaken n m (going l) h r = omega (arith, h, r)
Runs-weaken n m (stopped e l) h r = tt
Runs-weaken n m stuck h r = r

wait_loop-Runs :
    (f k n : ℕ) (m : Link) → left m + k < f → left m ≤ n → Runs n (waited (wait_loop f k m))
unfolding wait_loop
wait_loop-Runs zero k n m lt h = absurd (omega (arith, lt))
wait_loop-Runs (suc f) k n m lt h =
    Runs-weaken (left m) n (waited (on_wait (wait_loop f) k (listen crc_c m))) h (
      on_wait-Runs (left m) f k (listen crc_c m) (listen-Listens crc_c m) (omega (arith, lt))
        (λ j l a b. wait_loop-Runs f j (left m) l a b))

send_block-Runs :
    (n kind seq : ℕ) (d : Bytes) (l : Link)
    → left l ≤ n
    → Runs n (checked (send_block kind seq d l))
unfolding send_block
send_block-Runs n kind seq d l h =
    checked-Runs n (send_block kind seq d l) (send_loop-left block_retries n (frame kind seq d) l h)

send_eot-Runs : (n : ℕ) (l : Link) → left l ≤ n → Runs n (checked (send_eot l))
unfolding send_eot
send_eot-Runs n l h = checked-Runs n (send_eot l) (send_loop-left block_retries n _ l h)

round-Runs :
    (n f seq r want : ℕ) (l : Link) (o : Filled)
    → r ≤ f
    → r ≢ 0
    → left l ≤ n
    → ((s j : ℕ) (rs : List Read) (rest : Bytes) (m : Link)
        → j < f
        → left m ≤ n
        → Runs n (blocks_loop f s j rs rest m))
    → Runs n (block_round (blocks_loop f) seq r want l o)
round-Runs n f seq r want l none le ne h ih = tt
round-Runs n f seq r want l (some (d, rs, rest)) le ne h ih = elim (Bool-cases (length d == 0)) [
  | inl z ↦ rw z h
  | inr z ↦ rw z (
      then-Runs n (checked (send_block (kind_of d) seq (padded d) l)) next
        (send_block-Runs n (kind_of d) seq (padded d) l h) (next-Runs (==→ne (length d) 0 z)))
]
  where
    next : Link → Phase
    next m =
        if ltb (length d) want
        then going m
        else blocks_loop f ((seq + 1) % 256) (r - length d) rs rest m

    next-Runs : length d ≢ 0 → (m : Link) → left m ≤ n → Runs n (next m)
    next-Runs nz m b = elim (Bool-cases (ltb (length d) want)) [
      | inl t ↦ rw t b
      | inr t ↦ rw t (ih ((seq + 1) % 256) (r - length d) rs rest m (omega (arith, le, ne, nz)) b)
    ]

blocks_loop-Runs :
    (f n seq r : ℕ) (rs : List Read) (file : Bytes) (l : Link)
    → r < f
    → left l ≤ n
    → Runs n (blocks_loop f seq r rs file l)
unfolding blocks_loop
blocks_loop-Runs zero n seq r rs file l lt h = absurd (omega (arith, lt))
blocks_loop-Runs (suc f) n seq r rs file l lt h = elim (Bool-cases (r == 0)) [
  | inl e ↦ rw (e, blocks_loop) h
  | inr e ↦
      rw (e, blocks_loop)
        (round-Runs n f seq r (min r data_max) l (fill rs (min r data_max) file) (omega (arith, lt))
          (==→ne r 0 e) h (λ s j qs rest m a b. blocks_loop-Runs f n s j qs rest m a b))
]

ym_run-Runs :
    (f n : ℕ) (src : Source) (l : Link)
    → left l ≤ n
    → n + 10 < f
    → src.size < f
    → Runs n (ym_run f src l)
unfolding ym_run
ym_run-Runs f n src l h lt s =
    then-Runs n _ _
      (then-Runs n _ _
        (then-Runs n _ _
          (then-Runs n _ _
            (then-Runs n _ _
              (then-Runs n _ _ (waits l h) (λ m a. send_block-Runs n soh 0 (build_block0 src) m a))
              waits)
            (λ m a. blocks_loop-Runs f n 1 src.size src.reads src.file m s a))
          (λ m a. send_eot-Runs n m a))
        waits)
      (λ m a. send_block-Runs n soh 0 (replicate block0_len 0) m a)
  where
    waits : (m : Link) → left m ≤ n → Runs n (waited (wait_loop f 10 m))
    waits m a = wait_loop-Runs f 10 n m (omega (arith, a, lt)) a

ended-Runs : (n : ℕ) (x : Phase) → Runs n x → (r : Result) × (m : Link) × (ended x ≡ some (r, m))
ended-Runs n (going m) h = (ok, m, refl)
ended-Runs n (stopped r m) h = (r, _, refl)
ended-Runs n stuck h = absurd h

-- With more fuel than ten above the number of the receiver's answers, and than the size of the file,
-- `ymodem_send` returns, whatever the answers, the faults of `put` and the reads are.
pub ymodem_send-returns :
    (f : ℕ) (src : Source) (l : Link)
    → length l.answers + 10 < f
    → src.size < f
    → (r : Result) × (m : Link) × (ymodem_send f src l ≡ some (r, m))
unfolding ymodem_send
ymodem_send-returns f src l lt s =
    ended-Runs (length l.answers) (ym_run f src l)
      (ym_run-Runs f (length l.answers) src l (omega arith) lt s)
