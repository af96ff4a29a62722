-- ===== src/Ymodem.antt =====
-- svc/ymodem.c: the sender of YMODEM batches. The receiver is the list of what it answers, and is
-- silent behind it; the file source is a byte string that is read in pieces.
pub mod Decimal
pub mod Wire
pub mod Pieces
pub mod Transfer
pub mod Delivery
pub mod Receiver
pub mod Returns
mod Tests
use stm32f746g_disco.Prelude.{
  ℕ, zero, suc, ◌+◌, ◌-◌, ◌*◌, ◌/◌, ◌%◌, ◌^◌, ◌≤◌, ◌<◌, min, max, bit_and, bit_or, bit_xor, ◌≡◌,
  refl, sym, ap, ap₂, ◌∙◌, subst, ◌≢◌, ◌↔◌, ◌⊎◌, inl, inr, Bool, true, false, not, ◌&&◌, ◌||◌,
  Option, none, some, List, [], ◌∷◌, ◌++◌, map, append_assoc, append-nil, arith, ltb, leb, ◌==◌,
  if◌then◌else◌, eq→==, ne→==, ==_iff, lt→ltb, le→ltb, tests, leb→le, leb→lt, ltb→lt, ltb→le, ==→eq,
  ==→ne, Bool-cases, Option-cases, some_eq, absurd_bool, length, get_elem?, get_or, set, take, drop,
  replicate, length-append, length-set, length-take, length-drop, length-replicate,
  take-append-drop, get_or-set_self, get_or-set_ne, Bytes, codes, bytes_eq, bytes_eq_iff,
}

-- YM_SOH .. YM_CPMEOF
abbrev pub soh : ℕ
soh = 0x01

abbrev pub stx : ℕ
stx = 0x02

abbrev pub eot : ℕ
eot = 0x04

abbrev pub ack : ℕ
ack = 0x06

abbrev pub can : ℕ
can = 0x18

abbrev pub crc_c : ℕ
crc_c = 0x43

abbrev pub cpmeof : ℕ
cpmeof = 0x1A

-- YM_DATA_MAX, YM_BLOCK0_LEN, YM_HANDSHAKE_RETRIES, YM_BLOCK_RETRIES
abbrev pub data_max : ℕ
data_max = 1024

abbrev pub block0_len : ℕ
block0_len = 128

abbrev pub handshake_retries : ℕ
handshake_retries = 10

abbrev pub block_retries : ℕ
block_retries = 10

abbrev u16 : ℕ → ℕ
u16 n = n % 2 ^ 16

-- one round of the inner loop of `ymodem_crc16`
pub crc_bit : ℕ → ℕ
crc_bit crc = if bit_and crc 0x8000 == 0 then u16 (crc * 2) else u16 (bit_xor (crc * 2) 0x1021)

pub crc_bits : ℕ → ℕ → ℕ
unfolding crc_bit
crc_bits zero crc = crc
crc_bits (suc b) crc = crc_bits b (crc_bit crc)

pub crc_loop : Bytes → ℕ → ℕ
unfolding crc_bits
crc_loop [] crc = crc
crc_loop (p ∷ ps) crc = crc_loop ps (crc_bits 8 (bit_xor crc (u16 (p * 256))))

unfoldable pub ymodem_crc16 : Bytes → ℕ
unfolding crc_loop
ymodem_crc16 ps = crc_loop ps 0

-- `while (v) { tmp[n++] = '0' + v % 10; v /= 10; }`, with room for this many digits
pub digit_loop : ℕ → ℕ → Bytes
digit_loop zero v = []
digit_loop (suc f) v = elim (v == 0) [ true ↦ [] | false ↦ (48 + v % 10) ∷ digit_loop f (v / 10) ]

-- `out[i] = tmp[n - 1 - i]`
abbrev pub reversed : Bytes → Bytes
reversed [] = []
reversed (c ∷ cs) = reversed cs ++ c ∷ []

pub u32_to_dec : ℕ → Bytes
unfolding digit_loop
u32_to_dec v = if v == 0 then 48 ∷ [] else reversed (digit_loop 10 v)

-- what `getc` gives
pub data Reply : Type 0 where
  byte : ℕ → Reply
  timeout : Reply
  abort : Reply

-- the injected `struct ym_io`: the answers to come, whether each `put` to come fails, and the
-- buffers that were put
pub record Link : Type 0 where
  pub answers : List Reply
  pub faults : List Bool
  pub wire : List Bytes

pub data Result : Type 0 where
  ok err_cancel err_timeout err_source err_io : Result

abbrev pub reply_of : Link → List Reply → Reply × Link
reply_of l [] = (timeout, l)
reply_of l (r ∷ rs) = (r, record l { answers = rs })

abbrev pub getc : Link → Reply × Link
getc l = reply_of l l.answers

abbrev pub put_on : Bytes → Link → List Bool → Bool × Link
put_on b l [] = (false, record l { wire = l.wire ++ b ∷ [] })
put_on b l (true ∷ fs) = (true, record l { faults = fs })
put_on b l (false ∷ fs) = (false, record l { faults = fs; wire = l.wire ++ b ∷ [] })

-- true where `put` fails
abbrev pub put : Bytes → Link → Bool × Link
put b l = put_on b l l.faults

-- What a wait for a byte comes to: it came, the transfer is cancelled, something else came, or
-- nothing did.
pub data Heard : Type 0 where
  wanted cancelled stray silent : Heard

-- `is_double_can`
abbrev pub is_double_can : Reply × Link → Heard × Link
is_double_can (byte b, l) = (if b == can then cancelled else stray, l)
is_double_can (timeout, l) = (stray, l)
is_double_can (abort, l) = (stray, l)

abbrev pub hear : ℕ → Reply × Link → Heard × Link
hear w (timeout, l) = (silent, l)
hear w (abort, l) = (cancelled, l)
hear w (byte b, l) =
    if b == w then (wanted, l) else if b == can then is_double_can (getc l) else (stray, l)

unfoldable pub listen : ℕ → Link → Heard × Link
listen w l = hear w (getc l)

abbrev pub on_heard : (Link → Result × Link) → Heard × Link → Result × Link
on_heard again (wanted, l) = (ok, l)
on_heard again (cancelled, l) = (err_cancel, l)
on_heard again (stray, l) = again l
on_heard again (silent, l) = again l

abbrev pub after_put : (Link → Result × Link) → Bool × Link → Result × Link
after_put again (true, l) = (err_io, l)
after_put again (false, l) = on_heard again (listen ack l)

-- the `for (;;)` of `send_block` and of `send_eot`, with the resends that are left
pub send_loop : ℕ → Bytes → Link → Result × Link
unfolding listen
send_loop zero b l = after_put (λ l'. (err_timeout, l')) (put b l)
send_loop (suc k) b l = after_put (send_loop k b) (put b l)

-- the staged block: kind, seq, ~seq, data, CRC
pub frame : ℕ → ℕ → Bytes → Bytes
unfolding ymodem_crc16
frame kind seq bytes =
    kind
    ∷ seq
    ∷ (255 - seq)
    ∷ (bytes ++ (ymodem_crc16 bytes / 256) ∷ (ymodem_crc16 bytes % 256) ∷ [])

pub send_block : ℕ → ℕ → Bytes → Link → Result × Link
unfolding send_loop frame
send_block kind seq bytes l = send_loop block_retries (frame kind seq bytes) l

pub send_eot : Link → Result × Link
unfolding send_loop
send_eot l = send_loop block_retries (eot ∷ []) l

abbrev pub on_wait : (ℕ → Link → Option (Result × Link)) → ℕ → Heard × Link → Option (Result × Link)
on_wait again k (wanted, l) = some (ok, l)
on_wait again k (cancelled, l) = some (err_cancel, l)
on_wait again k (stray, l) = again k l
on_wait again zero (silent, l) = some (err_timeout, l)
on_wait again (suc k) (silent, l) = again k l

-- the `for (;;)` of `wait_start` and of `wait_c`, with the timeouts that are left
pub wait_loop : ℕ → ℕ → Link → Option (Result × Link)
unfolding listen
wait_loop zero k l = none
wait_loop (suc f) k l = on_wait (wait_loop f) k (listen crc_c l)

abbrev pub wait_start : ℕ → Link → Option (Result × Link)
wait_start f l = wait_loop f handshake_retries l

abbrev pub wait_c : ℕ → Link → Option (Result × Link)
wait_c f l = wait_loop f block_retries l

-- How a call of `read` answers: with a fault, or with at most so many bytes and one.
pub data Read : Type 0 where
  fault : Read
  short : ℕ → Read

-- `struct ym_source`: the file from the position on; calls of `read` behind `reads` give all that is
-- asked for and left.
pub record Source : Type 0 where
  pub name : Bytes
  pub size : ℕ
  pub file : Bytes
  pub reads : List Read

abbrev pub Filled : Type 0
Filled = Option (Bytes × List Read × Bytes)

abbrev pub prepend : Bytes → Filled → Filled
prepend b none = none
prepend b (some (d, rs, file)) = some (b ++ d, rs, file)

-- `while (filled < want)`: the bytes that it fills in, or `none` for a read fault
pub fill : List Read → ℕ → Bytes → Filled
fill [] want file = some (take want file, [], drop want file)
fill (fault ∷ rs) want file = if want == 0 then some ([], fault ∷ rs, file) else none
fill (short n ∷ rs) want file =
    let got = take (min (suc n) want) file in
    let rest = fill rs (want - length got) (drop (min (suc n) want) file) in
    if want == 0
    then some ([], short n ∷ rs, file)
    else if length got == 0
    then some ([], rs, file)
    else prepend got rest

-- A part of `ym_run`: it goes on, returns, or runs out of fuel.
pub data Phase : Type 0 where
  going : Link → Phase
  stopped : Result → Link → Phase
  stuck : Phase

infixl 5 ◌>>=◌
abbrev pub ◌>>=◌ : Phase → (Link → Phase) → Phase
going l >>= k = k l
stopped r l >>= k = stopped r l
stuck >>= k = stuck

-- `if (rc != YM_OK) return rc`
abbrev pub checked : Result × Link → Phase
checked (ok, l) = going l
checked (err_cancel, l) = stopped err_cancel l
checked (err_timeout, l) = stopped err_timeout l
checked (err_source, l) = stopped err_source l
checked (err_io, l) = stopped err_io l

abbrev pub waited : Option (Result × Link) → Phase
waited none = stuck
waited (some r) = checked r

abbrev pub block_len : ℕ → ℕ
block_len filled = if leb filled block0_len then block0_len else data_max

-- the filled part of the block, padded
abbrev pub padded : Bytes → Bytes
padded d = d ++ replicate (block_len (length d) - length d) cpmeof

abbrev pub kind_of : Bytes → ℕ
kind_of d = if block_len (length d) == block0_len then soh else stx

-- one round of `while (remaining > 0)` behind the reads
abbrev pub block_round :
    (ℕ → ℕ → List Read → Bytes → Link → Phase) → ℕ → ℕ → ℕ → Link → Filled → Phase
block_round again seq remaining want l none = stopped err_source l
block_round again seq remaining want l (some (d, rs, file)) =
    if length d == 0
    then going l
    else (checked (send_block (kind_of d) seq (padded d) l) >>= λ m.
        if ltb (length d) want
        then going m
        else again ((seq + 1) % 256) (remaining - length d) rs file m)

pub blocks_loop : ℕ → ℕ → ℕ → List Read → Bytes → Link → Phase
unfolding fill send_block
blocks_loop zero seq remaining rs file l = stuck
blocks_loop (suc f) seq remaining rs file l =
    if remaining == 0
    then going l
    else block_round (blocks_loop f) seq remaining (min remaining data_max) l
        (fill rs (min remaining data_max) file)

abbrev pub file_name : Bytes → Bytes
file_name [] = codes "file.bin"
file_name (c ∷ cs) = c ∷ cs

abbrev pub zero_padded : Bytes → Bytes
zero_padded b = b ++ replicate (block0_len - length b) 0

pub build_block0 : Source → Bytes
unfolding u32_to_dec
build_block0 src =
    let n = take 100 (file_name src.name) ++ 0 ∷ [] in
    zero_padded (n ++ take (block0_len - 1 - length n) (u32_to_dec src.size))

pub ym_run : ℕ → Source → Link → Phase
unfolding wait_loop build_block0 blocks_loop send_eot
ym_run f src l =
    waited (wait_start f l)
    >>= (λ l. checked (send_block soh 0 (build_block0 src) l))
    >>= (λ l. waited (wait_c f l))
    >>= blocks_loop f 1 src.size src.reads src.file
    >>= (λ l. checked (send_eot l))
    >>= (λ l. waited (wait_c f l))
    >>= (λ l. checked (send_block soh 0 (replicate block0_len 0) l))

-- CAN x5 and BS x8
abbrev pub cancel_sequence : Bytes
cancel_sequence = replicate 5 can ++ replicate 8 0x08

abbrev pub ended : Phase → Option (Result × Link)
ended (going l) = some (ok, l)
ended (stopped r l) = some (r, (put cancel_sequence l).1)
ended stuck = none

-- `none` if the fuel runs out
pub ymodem_send : ℕ → Source → Link → Option (Result × Link)
unfolding ym_run
ymodem_send f src l = ended (ym_run f src l)
