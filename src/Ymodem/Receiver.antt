-- ===== src/Ymodem/Receiver.antt =====
-- A receiver of YMODEM batches, which checks every packet, and what it makes of those of svc/ymodem.c.
use stm32f746g_disco.Prelude.{
  ℕ, zero, suc, ◌+◌, ◌-◌, ◌/◌, ◌%◌, ◌^◌, ◌≤◌, ◌<◌, ◌≡◌, refl, sym, ap, ap₂, ◌∙◌, subst, ◌≢◌, inl,
  inr, Bool, true, false, not, ◌&&◌, Option, none, some, List, [], ◌∷◌, ◌++◌, append_assoc, arith,
  leb, ◌==◌, if◌then◌else◌, eq→==, ne→==, tests, Bool-cases, length, take, drop, replicate,
  length-append, length-take, length-drop, length-replicate, Bytes, bytes_eq,
}
use stm32f746g_disco.History.Add.{NoNul}
use stm32f746g_disco.Ymodem.{
  cpmeof, ymodem_crc16, soh, data_max, block0_len, Link, ok, frame, Source, padded, kind_of,
  file_name, zero_padded, build_block0, u32_to_dec, ymodem_send,
}
use stm32f746g_disco.Ymodem.Pieces.{take_all}
use stm32f746g_disco.Ymodem.Decimal.{value, AreDigits, u32_to_dec-value}
use stm32f746g_disco.Ymodem.Transfer.{Sent}
use stm32f746g_disco.Ymodem.Delivery.{
  frames, payloads, payload-frame, take-concat, frames-payloads, batch, ymodem_send-Sent,
}

-- the data bytes of a packet, by its first byte
abbrev pub data_len : ℕ → ℕ
data_len kind = if kind == 1 then 128 else if kind == 2 then 1024 else 0

abbrev pub crc_bytes : Bytes → Bytes
crc_bytes d = ymodem_crc16 d / 256 ∷ ymodem_crc16 d % 256 ∷ []

-- The packet has a known kind, a number with its complement, and data of the right length with their CRC.
abbrev pub is_sound : ℕ → ℕ → ℕ → Bytes → Bool
is_sound kind seq comp body =
    not (data_len kind == 0)
    && seq + comp == 255
    && bytes_eq (drop (data_len kind) body) (crc_bytes (take (data_len kind) body))

-- the number and the data of a packet
pub unpack : Bytes → Option (ℕ × Bytes)
unfolding bytes_eq ymodem_crc16
unpack [] = none
unpack (a ∷ []) = none
unpack (a ∷ b ∷ []) = none
unpack (kind ∷ seq ∷ comp ∷ body) =
    if is_sound kind seq comp body then some (seq, take (data_len kind) body) else none

abbrev pub add_data : Bytes → Option (Bytes × List Bytes) → Option (Bytes × List Bytes)
add_data d none = none
add_data d (some (ds, rest)) = some (d ++ ds, rest)

-- the data of the packets numbered from `n` on, up to EOT, and the packets behind it
pub collect : ℕ → List Bytes → Option (Bytes × List Bytes)
unfolding unpack bytes_eq
collect n [] = none
collect n (p ∷ ps) =
    let later = collect ((n + 1) % 256) ps in
    elim (unpack p) [
      | some (s, d) ↦ if s == n then add_data d later else none
      | none ↦ if bytes_eq p (4 ∷ []) then some ([], ps) else none
    ]

abbrev pub until_nul : Bytes → Bytes
until_nul [] = []
until_nul (c ∷ cs) = let rest = until_nul cs in if c == 0 then [] else c ∷ rest

abbrev pub behind_nul : Bytes → Bytes
behind_nul [] = []
behind_nul (c ∷ cs) = let rest = behind_nul cs in if c == 0 then cs else rest

-- an empty block 0 and nothing behind it
pub closes : List Bytes → Bool
unfolding unpack
closes [] = false
closes (p ∷ q ∷ ps) = false
closes (p ∷ []) = elim (unpack p) [
  | none ↦ false
  | some (s, h) ↦ s == 0 && length (until_nul h) == 0
]

abbrev pub finished : Bytes → ℕ → Option (Bytes × List Bytes) → Option (Bytes × Bytes)
finished name size none = none
finished name size (some (ds, rest)) = if closes rest then some (name, take size ds) else none

-- the name and the file of a batch of one file
pub receive : List Bytes → Option (Bytes × Bytes)
unfolding unpack collect closes
receive [] = none
receive (p ∷ ps) = elim (unpack p) [
  | none ↦ none
  | some (s, h) ↦
      if s == 0
      then finished (until_nul h) (value (until_nul (behind_nul h))) (collect 1 ps)
      else none
]

bytes_eq_self : (d : Bytes) → bytes_eq d d ≡ true
unfolding bytes_eq
bytes_eq_self [] = refl
bytes_eq_self (c ∷ cs) = rw (eq→== c c refl, bytes_eq_self cs) refl

drop-concat : (xs ys : Bytes) → drop (length xs) (xs ++ ys) ≡ ys
drop-concat [] ys = refl
drop-concat (x ∷ xs) ys = drop-concat xs ys

unpack-frame :
    (kind seq : ℕ) (d : Bytes)
    → data_len kind ≢ 0
    → length d ≡ data_len kind
    → seq < 256
    → unpack (frame kind seq d) ≡ some (seq, d)
unfolding unpack frame ymodem_crc16
unpack-frame kind seq d k e s =
    rw taken (rw (ne→== (data_len kind) 0 k, sums, dropped, bytes_eq_self (crc_bytes d)) refl)
  where
    taken : take (data_len kind) (d ++ crc_bytes d) ≡ d
    taken = subst (λ n. take n (d ++ crc_bytes d) ≡ d) e (take-concat d (crc_bytes d))

    dropped : drop (data_len kind) (d ++ crc_bytes d) ≡ crc_bytes d
    dropped = subst (λ n. drop n (d ++ crc_bytes d) ≡ crc_bytes d) e (drop-concat d (crc_bytes d))

    sums : (seq + (255 - seq) == 255) ≡ true
    sums = eq→== (seq + (255 - seq)) 255 (omega (arith, s))

header_kind :
    (d : Bytes)
    → length d ≤ 1024
    → (data_len (kind_of d) ≢ 0) × (length (padded d) ≡ data_len (kind_of d))
header_kind d h = elim (Bool-cases (leb (length d) 128)) [
  | inl e ↦ rw e (
    (λ z. omega (arith, z)),
    omega (
      tests,
      e,
      length-append d (replicate (128 - length d) cpmeof),
      length-replicate (128 - length d) cpmeof,
    ),
  )
  | inr e ↦ rw e (
    (λ z. omega (arith, z)),
    omega (
      tests,
      e,
      h,
      length-append d (replicate (1024 - length d) cpmeof),
      length-replicate (1024 - length d) cpmeof,
    ),
  )
]

collect_step :
    (n : ℕ) (p : Bytes) (ps : List Bytes) (d : Bytes)
    → unpack p ≡ some (n, d)
    → collect n (p ∷ ps) ≡ add_data d (collect ((n + 1) % 256) ps)
unfolding collect
collect_step n p ps d e = rw (e, collect) (rw (eq→== n n refl) refl)

frames-collected :
    (f n : ℕ) (file : Bytes) (ps : List Bytes)
    → n < 256
    → length file < f
    → collect n (frames f n file ++ (4 ∷ []) ∷ ps) ≡ some (payloads (frames f n file), ps)
unfolding collect frames payloads unpack bytes_eq
frames-collected zero n file ps b lt = absurd (omega (arith, lt))
frames-collected (suc f) n [] ps b lt = refl
frames-collected (suc f) n (c ∷ cs) ps b lt =
    collect_step n (frame (kind_of d) n (padded d)) (frames f ((n + 1) % 256) more ++ (4 ∷ []) ∷ ps)
      (padded d)
      (unpack-frame (kind_of d) n (padded d) (header_kind d small).0 (header_kind d small).1 b)
    ∙ ap (add_data (padded d)) (
        frames-collected f ((n + 1) % 256) more ps (omega arith)
          (omega (arith, lt, length-drop data_max (c ∷ cs))))
    ∙ ap (λ x. some (x ++ payloads (frames f ((n + 1) % 256) more), ps))
        (sym (payload-frame (kind_of d) n (padded d)))
  where
    d : Bytes
    d = take data_max (c ∷ cs)

    more : Bytes
    more = drop data_max (c ∷ cs)

    small : length d ≤ 1024
    small = omega (arith, length-take data_max (c ∷ cs))

until_nul_lem :
    (xs ys : Bytes) → NoNul xs → (until_nul (xs ++ 0 ∷ ys) ≡ xs) × (behind_nul (xs ++ 0 ∷ ys) ≡ ys)
until_nul_lem [] ys h = (refl, refl)
until_nul_lem (x ∷ xs) ys h =
    rw (ne→== x 0 h.0) (ap (λ z. x ∷ z) (until_nul_lem xs ys h.1).0, (until_nul_lem xs ys h.1).1)

digits-NoNul : (xs : Bytes) → AreDigits xs → NoNul xs
digits-NoNul [] h = tt
digits-NoNul (x ∷ xs) h = ((λ e. omega (arith, e, h.0)), digits-NoNul xs h.2)

-- the name that block 0 announces
abbrev pub announced : Source → Bytes
announced src = take 100 (file_name src.name)

abbrev block_of : Bytes → Bytes → Bytes
block_of name dec =
    let n = name ++ 0 ∷ [] in zero_padded (n ++ take (block0_len - 1 - length n) dec)

block_of_lem :
    (name dec : Bytes)
    → length name ≤ 100
    → length dec ≤ 10
    → (zs : Bytes) × (block_of name dec ≡ name ++ 0 ∷ (dec ++ 0 ∷ zs))
      × (length (block_of name dec) ≡ 128)
block_of_lem name dec a b = (
  replicate (127 - length (n ++ dec)) 0,
  ap zero_padded all
      ∙ ap (λ k. (n ++ dec) ++ replicate k 0) one_more
      ∙ append_assoc n dec (0 ∷ replicate (127 - length (n ++ dec)) 0)
      ∙ append_assoc name (0 ∷ []) (dec ++ 0 ∷ replicate (127 - length (n ++ dec)) 0),
  ap (λ x. length (zero_padded x)) all
      ∙ omega (
        arith,
        short,
        length-append (n ++ dec) (replicate (128 - length (n ++ dec)) 0),
        length-replicate {A = ℕ} (128 - length (n ++ dec)) 0,
      ),
)
  where
    n : Bytes
    n = name ++ 0 ∷ []

    all : n ++ take (127 - length n) dec ≡ n ++ dec
    all =
        ap (λ x. n ++ x)
          (take_all (127 - length n) dec (omega (arith, a, b, length-append name (0 ∷ []))))

    short : length (n ++ dec) ≤ 111
    short = omega (arith, a, b, length-append name (0 ∷ []), length-append n dec)

    one_more : 128 - length (n ++ dec) ≡ suc (127 - length (n ++ dec))
    one_more = omega (arith, short)

block0_lem :
    (src : Source)
    → src.size < 2 ^ 32
    → (zs : Bytes) × (build_block0 src ≡ announced src ++ 0 ∷ (u32_to_dec src.size ++ 0 ∷ zs))
      × (length (build_block0 src) ≡ 128)
unfolding build_block0 u32_to_dec
block0_lem src b =
    block_of_lem (announced src) (u32_to_dec src.size)
      (omega (arith, length-take 100 (file_name src.name))) (u32_to_dec-value src.size b).2

block0-announces :
    (src : Source)
    → src.size < 2 ^ 32
    → NoNul (announced src)
    → (until_nul (build_block0 src) ≡ announced src)
      × (value (until_nul (behind_nul (build_block0 src))) ≡ src.size)
block0-announces src b h = rw e (
  (until_nul_lem (announced src) rest h).0,
  rw ((until_nul_lem (announced src) rest h).1)
      (rw (until_nul_lem (u32_to_dec src.size) zs digits).0 (u32_to_dec-value src.size b).0),
)
  where
    zs : Bytes
    zs = (block0_lem src b).0

    rest : Bytes
    rest = u32_to_dec src.size ++ 0 ∷ zs

    e : build_block0 src ≡ announced src ++ 0 ∷ rest
    e = (block0_lem src b).1

    digits : NoNul (u32_to_dec src.size)
    digits = digits-NoNul (u32_to_dec src.size) (u32_to_dec-value src.size b).3

receive_step :
    (p h : Bytes) (ps : List Bytes)
    → unpack p ≡ some (0, h)
    → receive (p ∷ ps) ≡ finished (until_nul h) (value (until_nul (behind_nul h))) (collect 1 ps)
unfolding receive
receive_step p h ps e = rw (e, receive) refl

closed : closes (frame soh 0 (replicate block0_len 0) ∷ []) ≡ true
unfolding closes
closed =
    rw
      (
        unpack-frame soh 0 (replicate block0_len 0) (λ z. omega (arith, z)) refl (omega arith),
        closes,
      )
      refl

batch-received :
    (f : ℕ) (src : Source)
    → src.size ≡ length src.file
    → src.size < 2 ^ 32
    → NoNul (announced src)
    → src.size < f
    → receive (batch f src) ≡ some (announced src, src.file)
unfolding batch
batch-received f src w b h lt =
    receive_step (frame soh 0 (build_block0 src)) (build_block0 src) _ (
      unpack-frame soh 0 (build_block0 src) (λ z. omega (arith, z)) (block0_lem src b).2
        (omega arith))
    ∙ ap
        (λ x.
          finished (until_nul (build_block0 src))
            (value (until_nul (behind_nul (build_block0 src))))
            (collect 1 (frames f 1 x ++ (4 ∷ []) ∷ frame soh 0 (replicate block0_len 0) ∷ [])))
        (take_all src.size src.file (omega (arith, w)))
    ∙ ap
        (finished (until_nul (build_block0 src))
          (value (until_nul (behind_nul (build_block0 src)))))
        (frames-collected f 1 src.file (frame soh 0 (replicate block0_len 0) ∷ []) (omega arith)
          (omega (arith, w, lt)))
    ∙ ap₂
        (λ x y.
          finished x y
            (some (payloads (frames f 1 src.file), frame soh 0 (replicate block0_len 0) ∷ [])))
        (block0-announces src b h).0 (block0-announces src b h).1
    ∙ ap
        (λ c.
          if c then some (announced src, take src.size (payloads (frames f 1 src.file))) else none)
        closed
    ∙ ap (λ n. some (announced src, take n (payloads (frames f 1 src.file)))) w
    ∙ ap (λ x. some (announced src, x)) (frames-payloads f 1 src.file (omega (arith, w, lt)))

-- For a source of as many bytes as it announces, less than 2^32 and than the fuel, with a name whose first 100
-- bytes have no NUL: where `ymodem_send` returns YM_OK, what it has put on the line are packets, in order,
-- each at least once and at most eleven times in a row, and nothing else. A receiver that
-- checks the kind, the number and its complement, the length and the CRC of each of these packets, their numbering
-- from 0 on, the EOT and the empty block 0 behind it, gets from them the name, cut to 100 bytes, or `file.bin` for an empty one, and the
-- bytes of the file.
pub ymodem_send-received :
    (f : ℕ) (src : Source) (l : Link) {m : Link}
    → src.size ≡ length src.file
    → src.size < 2 ^ 32
    → NoNul (announced src)
    → src.size < f
    → ymodem_send f src l ≡ some (ok, m)
    → (ps : List Bytes) × Sent ps l m × (receive ps ≡ some (announced src, src.file))
ymodem_send-received f src l w b h lt e =
    (batch f src, ymodem_send-Sent f src l e, batch-received f src w b h lt)
