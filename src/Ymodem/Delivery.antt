-- ===== src/Ymodem/Delivery.antt =====
-- The packets of a whole batch, and that their data are the file.
use stm32f746g_disco.Prelude.{
  ℕ, zero, suc, ◌+◌, ◌-◌, ◌/◌, ◌%◌, ◌≤◌, ◌<◌, min, ◌≡◌, refl, sym, ap, ap₂, ◌∙◌, subst, ◌≢◌, inl,
  inr, none, some, List, [], ◌∷◌, ◌++◌, append_assoc, append-nil, arith, ltb, leb, ◌==◌,
  if◌then◌else◌, tests, ==→eq, ==→ne, Bool-cases, some_eq, length, take, drop, replicate,
  length-append, length-take, length-drop, take-append-drop, Bytes,
}
use stm32f746g_disco.Ymodem.{
  cpmeof, ymodem_crc16, eot, soh, data_max, block0_len, Link, ok, frame, send_block, Read, Source,
  Filled, fill, Phase, going, stopped, stuck, ◌>>=◌, checked, block_len, padded, kind_of,
  block_round, blocks_loop, build_block0, ym_run, ended, ymodem_send,
}
use stm32f746g_disco.Ymodem.Pieces.{
  take-nil, take_all, drop_all, take-take, drop-take, Fills, fill-Fills, nothing_taken,
}
use stm32f746g_disco.Ymodem.Transfer.{
  Sent, Goes, then-Goes, send_block-Goes, send_eot-Goes, wait_loop-Goes, Sent-append, Sent-none,
}

-- The data packets of these bytes, from a sequence number on, for a fuel above their number.
unfoldable pub frames : ℕ → ℕ → Bytes → List Bytes
unfolding frame
frames zero seq file = []
frames (suc f) seq [] = []
frames (suc f) seq (c ∷ cs) =
    let d = take data_max (c ∷ cs) in
    frame (kind_of d) seq (padded d) ∷ frames f ((seq + 1) % 256) (drop data_max (c ∷ cs))

frames-nil : (f seq : ℕ) → frames f seq [] ≡ []
unfolding frames
frames-nil zero seq = refl
frames-nil (suc f) seq = refl

-- a piece that is not empty is a packet
frames-piece :
    (f seq : ℕ) (file : Bytes)
    → length (take data_max file) ≢ 0
    → frames (suc f) seq file
      ≡ frame (kind_of (take data_max file)) seq (padded (take data_max file))
        ∷ frames f ((seq + 1) % 256) (drop data_max file)
unfolding frames
frames-piece f seq [] ne = absurd (ne refl)
frames-piece f seq (c ∷ cs) ne = refl

-- The piece that a round asks for, of the bytes that are left to send.
piece_lem :
    (r : ℕ) (file : Bytes)
    → (take data_max (take r file) ≡ take (min r data_max) file)
      × (drop data_max (take r file)
          ≡ take (r - length (take (min r data_max) file)) (drop (min r data_max) file))
piece_lem r file = elim (Bool-cases (leb r data_max)) [
  | inl e ↦
      let m : min r data_max ≡ r = omega tests in
      rw m (
        take_all data_max (take r file) (omega (tests, length-take r file)),
        drop_all data_max (take r file) (omega (tests, length-take r file))
            ∙ sym (rest_nothing r file),
      )
  | inr e ↦
      let m : min r data_max ≡ data_max = omega tests in
      rw m (take-take data_max r file (omega tests), drop-take data_max r file (omega tests))
]
  where
    rest_nothing : (r : ℕ) (file : Bytes) → take (r - length (take r file)) (drop r file) ≡ []
    rest_nothing zero file = refl
    rest_nothing (suc r) [] = take-nil (suc r - 0)
    rest_nothing (suc r) (x ∷ xs) = ap (λ n. take n (drop r xs)) (omega arith) ∙ rest_nothing r xs

-- The packets of what is left, by the piece that a round has filled in.
frames_round :
    (f seq r : ℕ) (d file : Bytes)
    → d ≡ take (min r data_max) file
    → length d ≢ 0
    → frames (suc f) seq (take r file)
      ≡ frame (kind_of d) seq (padded d)
        ∷ frames f ((seq + 1) % 256) (take (r - length d) (drop (min r data_max) file))
frames_round f seq r d file e ne =
    let (t, u) = piece_lem r file in
    let q : take data_max (take r file) ≡ d = t ∙ sym e in
    frames-piece f seq (take r file) (λ z. ne (ap length (sym q) ∙ z))
    ∙ ap₂ (λ x y. frame (kind_of x) seq (padded x) ∷ frames f ((seq + 1) % 256) y) q
        (u ∙ ap (λ x. take (r - length x) (drop (min r data_max) file)) (sym e))

-- What the file still has to send goes on the line, from here.
abbrev Sends : ℕ → ℕ → ℕ → Bytes → Link → Link → Type 0
Sends f seq r file l m = Sent (frames f seq (take r file)) l m

Goes-map : (P Q : Link → Type 0) (x : Phase) → Goes P x → ((m : Link) → P m → Q m) → Goes Q x
Goes-map P Q (going m) h f = f m h
Goes-map P Q (stopped r m) h f = h
Goes-map P Q stuck h f = tt

-- A piece shorter than asked for is the end of the file.
short_end : (k : ℕ) (file : Bytes) → length (take k file) < k → drop k file ≡ []
short_end zero file h = absurd (omega (arith, h))
short_end (suc k) [] h = refl
short_end (suc k) (x ∷ xs) h = short_end k xs (omega (arith, h))

Sends-none : (f seq r : ℕ) (file : Bytes) (l : Link) → take r file ≡ [] → Sends f seq r file l l
Sends-none f seq r file l e = rw (e, frames-nil f seq) (Sent-none l l refl)

round-Goes :
    (f seq r : ℕ) (file : Bytes) (l : Link) (o : Filled)
    → r ≢ 0
    → Fills (min r data_max) file o
    → ((s j : ℕ) (rs : List Read) (rest : Bytes) (m : Link)
        → Goes (Sends f s j rest m) (blocks_loop f s j rs rest m))
    → Goes (Sends (suc f) seq r file l) (block_round (blocks_loop f) seq r (min r data_max) l o)
round-Goes f seq r file l none ne h ih = λ e. cc
round-Goes f seq r file l (some (d, rs, rest)) ne h ih = elim (Bool-cases (length d == 0)) [
  | inl z ↦ rw z (
      Sends-none (suc f) seq r file l (
        ap (take r) (
          nothing_taken (min r data_max) file (λ e. ne (omega (arith, e)))
            (ap length (sym h.0) ∙ ==→eq (length d) 0 z))
        ∙ take-nil r))
  | inr z ↦ rw z (
      subst (λ ps. Goes (Sent ps l) (checked (send_block (kind_of d) seq (padded d) l) >>= next))
        (sym (frames_round f seq r d file h.0 (==→ne (length d) 0 z)))
        (then-Goes (Sent (packet ∷ []) l) (Sent (packet ∷ later) l)
          (checked (send_block (kind_of d) seq (padded d) l)) next
          (send_block-Goes (kind_of d) seq (padded d) l) next-Goes))
]
  where
    packet : Bytes
    packet = frame (kind_of d) seq (padded d)

    later : List Bytes
    later = frames f ((seq + 1) % 256) (take (r - length d) (drop (min r data_max) file))

    next : Link → Phase
    next m =
        if ltb (length d) (min r data_max)
        then going m
        else blocks_loop f ((seq + 1) % 256) (r - length d) rs rest m

    next-Goes : (m : Link) → Sent (packet ∷ []) l m → Goes (Sent (packet ∷ later) l) (next m)
    next-Goes m s = elim (Bool-cases (ltb (length d) (min r data_max))) [
      | inl t ↦ rw t (
          subst (λ ps. Sent (packet ∷ ps) l m) (sym (nothing_later (omega (tests, ap length h.0))))
            s)
      | inr t ↦ rw t (
          Goes-map (Sent later m) (Sent (packet ∷ later) l)
            (blocks_loop f ((seq + 1) % 256) (r - length d) rs rest m)
            (subst
              (λ x.
                Goes (Sent (frames f ((seq + 1) % 256) (take (r - length d) x)) m)
                  (blocks_loop f ((seq + 1) % 256) (r - length d) rs rest m))
              h.1 (ih ((seq + 1) % 256) (r - length d) rs rest m))
            (λ n v. Sent-append (packet ∷ []) later l m n s v))
    ]
      where
        nothing_later : length (take (min r data_max) file) < min r data_max → later ≡ []
        nothing_later lt =
            ap (λ x. frames f ((seq + 1) % 256) (take (r - length d) x))
              (short_end (min r data_max) file lt)
            ∙ ap (frames f ((seq + 1) % 256)) (take-nil (r - length d))
            ∙ frames-nil f ((seq + 1) % 256)

blocks_loop-Goes :
    (f seq r : ℕ) (rs : List Read) (file : Bytes) (l : Link)
    → Goes (Sends f seq r file l) (blocks_loop f seq r rs file l)
unfolding blocks_loop
blocks_loop-Goes zero seq r rs file l = tt
blocks_loop-Goes (suc f) seq r rs file l = elim (Bool-cases (r == 0)) [
  | inl e ↦
      rw (e, blocks_loop) (Sends-none (suc f) seq r file l (ap (λ n. take n file) (==→eq r 0 e)))
  | inr e ↦
      rw (e, blocks_loop)
        (round-Goes f seq r file l (fill rs (min r data_max) file) (==→ne r 0 e)
          (fill-Fills rs (min r data_max) file) (λ s j qs rest m. blocks_loop-Goes f s j qs rest m))
]

-- The packets of a batch: block 0, the data, EOT, and the block that closes the batch.
unfoldable pub batch : ℕ → Source → List Bytes
unfolding frames build_block0
batch f src =
    frame soh 0 (build_block0 src) ∷ []
    ++ (frames f 1 (take src.size src.file)
        ++ ((eot ∷ []) ∷ [] ++ frame soh 0 (replicate block0_len 0) ∷ []))

-- A phase that puts these packets, behind those.
extend :
    (ps qs : List Bytes) (l : Link) (x : Phase) (k : Link → Phase)
    → Goes (Sent ps l) x
    → ((m : Link) → Goes (Sent qs m) (k m))
    → Goes (Sent (ps ++ qs) l) (x >>= k)
extend ps qs l x k h g = then-Goes (Sent ps l) (Sent (ps ++ qs) l) x k h (λ m s.
    Goes-map (Sent qs m) (Sent (ps ++ qs) l) (k m) (g m) (λ n t. Sent-append ps qs l m n s t))

extend_none :
    (ps : List Bytes) (l : Link) (x : Phase) (k : Link → Phase)
    → Goes (Sent ps l) x
    → ((m : Link) → Goes (Sent [] m) (k m))
    → Goes (Sent ps l) (x >>= k)
extend_none ps l x k h g =
    subst (λ qs. Goes (Sent qs l) (x >>= k)) (append-nil ps) (extend ps [] l x k h g)

ym_run-Goes : (f : ℕ) (src : Source) (l : Link) → Goes (Sent (batch f src) l) (ym_run f src l)
unfolding ym_run batch
ym_run-Goes f src l =
    subst (λ ps. Goes (Sent ps l) (ym_run f src l)) (regroup (frames f 1 (take src.size src.file)))
      (extend (b0 ∷ data_packets ++ (eot ∷ []) ∷ []) (null ∷ []) l _ _
        (extend_none (b0 ∷ data_packets ++ (eot ∷ []) ∷ []) l _ _
          (extend (b0 ∷ data_packets) ((eot ∷ []) ∷ []) l _ _
            (extend (b0 ∷ []) data_packets l _ _
              (extend_none (b0 ∷ []) l _ _
                (extend [] (b0 ∷ []) l _ _ (wait_loop-Goes f 10 l l refl)
                  (λ m. send_block-Goes soh 0 (build_block0 src) m))
                (λ m. wait_loop-Goes f 10 m m refl))
              (λ m. blocks_loop-Goes f 1 src.size src.reads src.file m))
            (λ m. send_eot-Goes m))
          (λ m. wait_loop-Goes f 10 m m refl))
        (λ m. send_block-Goes soh 0 (replicate block0_len 0) m))
  where
    b0 : Bytes
    b0 = frame soh 0 (build_block0 src)

    null : Bytes
    null = frame soh 0 (replicate block0_len 0)

    data_packets : List Bytes
    data_packets = frames f 1 (take src.size src.file)

    regroup :
        (fr : List Bytes)
        → b0 ∷ (((fr ++ (eot ∷ []) ∷ [])) ++ null ∷ []) ≡ b0 ∷ (fr ++ (eot ∷ []) ∷ null ∷ [])
    regroup fr = ap (λ x. b0 ∷ x) (append_assoc fr ((eot ∷ []) ∷ []) (null ∷ []))

ended-going : (x : Phase) (P : Link → Type 0) {m : Link} → Goes P x → ended x ≡ some (ok, m) → P m
ended-going (going n) P h e = subst P (ap (λ x. x.1) (some_eq e)) h
ended-going (stopped r n) P h e = absurd (h (ap (λ x. x.0) (some_eq e)))
ended-going stuck P h e = cc

-- Where `ymodem_send` returns YM_OK, what it has put on the line is the batch of the source: block 0
-- with the name and the size, the data packets of the first `size` bytes of the file with sequence
-- numbers from 1 on, EOT and an empty block 0, in this order, each at least once and, with up to
-- YM_BLOCK_RETRIES resends, at most eleven times, and nothing else.
pub ymodem_send-Sent :
    (f : ℕ) (src : Source) (l : Link) {m : Link}
    → ymodem_send f src l ≡ some (ok, m)
    → Sent (batch f src) l m
unfolding ymodem_send
ymodem_send-Sent f src l e =
    ended-going (ym_run f src l) (Sent (batch f src) l) (ym_run-Goes f src l) e

-- What a receiver takes out of a packet: behind the three bytes in front, without the CRC.
unfoldable pub payload : Bytes → Bytes
payload p = take (length p - 5) (drop 3 p)

unfoldable pub payloads : List Bytes → Bytes
unfolding payload
payloads [] = []
payloads (p ∷ ps) = payload p ++ payloads ps

pub take-concat : (xs ys : Bytes) → take (length xs) (xs ++ ys) ≡ xs
take-concat [] ys = refl
take-concat (x ∷ xs) ys = ap (λ y. x ∷ y) (take-concat xs ys)

without_crc :
    (d : Bytes) (x y : ℕ)
    → take (suc (suc (suc (length (d ++ x ∷ y ∷ [])))) - 5) (d ++ x ∷ y ∷ []) ≡ d
without_crc d x y =
    ap (λ n. take n (d ++ x ∷ y ∷ [])) (omega (arith, length-append d (x ∷ y ∷ [])))
    ∙ take-concat d (x ∷ y ∷ [])

pub payload-frame : (kind seq : ℕ) (d : Bytes) → payload (frame kind seq d) ≡ d
unfolding payload frame
payload-frame kind seq d = without_crc d (ymodem_crc16 d / 256) (ymodem_crc16 d % 256)

take-behind :
    (xs ys : Bytes) (n : ℕ) → length xs ≤ n → take n (xs ++ ys) ≡ xs ++ take (n - length xs) ys
take-behind [] ys n h = ap (λ k. take k ys) (omega arith)
take-behind (x ∷ xs) ys zero h = absurd (omega (arith, h))
take-behind (x ∷ xs) ys (suc n) h =
    ap (λ y. x ∷ y)
      (take-behind xs ys n (omega (arith, h)) ∙ ap (λ k. xs ++ take k ys) (omega arith))

full_block : (d : Bytes) → length d ≡ data_max → padded d ≡ d
full_block d h = ap (λ n. d ++ replicate (block_len n - n) cpmeof) h ∙ append-nil d

-- The padded first piece and what follows it, cut to the length.
joined :
    (file rest : Bytes)
    → take (length file - data_max) rest ≡ drop data_max file
    → take (length file) (padded (take data_max file) ++ rest) ≡ file
joined file rest h = elim (Bool-cases (leb (length file) data_max)) [
  | inl e ↦
      subst (λ d. take (length file) (padded d ++ rest) ≡ file)
        (sym (take_all data_max file (omega tests)))
        (ap (take (length file))
            (append_assoc file (replicate (block_len (length file) - length file) cpmeof) rest)
          ∙ take-concat file (replicate (block_len (length file) - length file) cpmeof ++ rest))
  | inr e ↦
      let full : length (take data_max file) ≡ data_max =
        omega (tests, length-take data_max file) in
      ap (λ d. take (length file) (d ++ rest)) (full_block (take data_max file) full)
      ∙ take-behind (take data_max file) rest (length file) (omega (tests, full))
      ∙ ap (λ n. take data_max file ++ take (length file - n) rest) full
      ∙ ap (λ x. take data_max file ++ x) h
      ∙ take-append-drop data_max file
]

frames-payloads_step :
    (f seq : ℕ) (file : Bytes)
    → length (take data_max file) ≢ 0
    → take
        (length (drop data_max file))
        (payloads (frames f ((seq + 1) % 256) (drop data_max file)))
      ≡ drop data_max file
    → take (length file) (payloads (frames (suc f) seq file)) ≡ file
unfolding payloads
frames-payloads_step f seq file ne ih =
    ap (λ ps. take (length file) (payloads ps)) (frames-piece f seq file ne)
    ∙ ap (λ x. take (length file) (x ++ rest))
        (payload-frame (kind_of (take data_max file)) seq (padded (take data_max file)))
    ∙ joined file rest (ap (λ n. take n rest) (sym (length-drop data_max file)) ∙ ih)
  where
    rest : Bytes
    rest = payloads (frames f ((seq + 1) % 256) (drop data_max file))

-- A receiver that joins the data of the packets and cuts them to the announced length has the file,
-- for a fuel above the length; the padding of the last packet is what the cut takes away.
pub frames-payloads :
    (f seq : ℕ) (file : Bytes)
    → length file < f
    → take (length file) (payloads (frames f seq file)) ≡ file
unfolding frames payloads
frames-payloads zero seq file lt = absurd (omega (arith, lt))
frames-payloads (suc f) seq [] lt = refl
frames-payloads (suc f) seq (c ∷ cs) lt =
    frames-payloads_step f seq (c ∷ cs) (λ z. omega (arith, z))
      (frames-payloads f ((seq + 1) % 256) (drop data_max (c ∷ cs))
        (omega (arith, lt, length-drop data_max (c ∷ cs))))
