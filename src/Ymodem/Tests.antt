-- ===== src/Ymodem/Tests.antt =====
-- Short transfers of svc/ymodem.c.
use stm32f746g_disco.Prelude.{Bytes, ◌≤◌, ◌≡◌, refl, some, List, [], ◌∷◌, arith, length, codes}
use stm32f746g_disco.Ymodem.{
  ok, Reply, byte, timeout, ack, crc_c, Link, Result, short, Source, send_loop, u32_to_dec,
  ymodem_crc16, ymodem_send,
}
use stm32f746g_disco.Ymodem.Decimal.{value, AreDigits, u32_to_dec-value}
use stm32f746g_disco.Ymodem.Wire.{Copied, send_loop-Copied}
use stm32f746g_disco.Ymodem.Receiver.{receive, announced, ymodem_send-received}
use stm32f746g_disco.History.Add.{NoNul}
use stm32f746g_disco.Ymodem.Transfer.{Sent}
use stm32f746g_disco.Ymodem.Delivery.{batch}
use stm32f746g_disco.Ymodem.Returns.{ymodem_send-returns}

abbrev receiver : List Reply → Link
receiver rs = record { answers = rs; faults = []; wire = [] }

abbrev empty_file : Source
empty_file = record { name = codes "a"; size = 0; file = []; reads = [] }

abbrev small_file : Source
small_file = record {
  name = codes "a";
  size = 3;
  file = codes "xyz";
  reads = short 1 ∷ short 4 ∷ [];
}

-- the check value of CRC-16/XMODEM
check_value : ymodem_crc16 (codes "123456789") ≡ 0x31C3
unfolding ymodem_crc16
check_value = refl

u32_to_dec-value_example :
    (value (u32_to_dec 1024) ≡ 1024)
    × (1 ≤ length (u32_to_dec 1024))
    × (length (u32_to_dec 1024) ≤ 10)
    × AreDigits (u32_to_dec 1024)
u32_to_dec-value_example = u32_to_dec-value 1024 (omega arith)

abbrev resent : Link
resent = record { answers = []; faults = []; wire = (7 ∷ []) ∷ (7 ∷ []) ∷ [] }

send_loop-Copied_example : Copied 10 (7 ∷ []) (receiver (timeout ∷ byte ack ∷ [])) resent
unfolding send_loop
send_loop-Copied_example = send_loop-Copied 10 (7 ∷ []) (receiver (timeout ∷ byte ack ∷ [])) refl

-- a receiver that takes a file of one packet or none
abbrev takes : List Reply
takes = byte crc_c ∷ byte ack ∷ byte crc_c ∷ byte ack ∷ byte ack ∷ byte crc_c ∷ byte ack ∷ []

abbrev delivered : Link
delivered = record { answers = []; faults = []; wire = batch 20 small_file }

small_file_sent : ymodem_send 20 small_file (receiver takes) ≡ some (ok, delivered)
unfolding ymodem_send batch
small_file_sent = refl

small_file-NoNul : NoNul (announced small_file)
small_file-NoNul = ((λ e. omega (arith, e)), tt)

ymodem_send-received_example :
    (ps : List Bytes) × Sent ps (receiver takes) delivered
    × (receive ps ≡ some (announced small_file, small_file.file))
ymodem_send-received_example =
    ymodem_send-received 20 small_file (receiver takes) refl (omega arith) small_file-NoNul
      (omega arith) small_file_sent

ymodem_send-returns_example :
    (r : Result) × (m : Link) × (ymodem_send 20 small_file (receiver takes) ≡ some (r, m))
ymodem_send-returns_example =
    ymodem_send-returns 20 small_file (receiver takes) (omega arith) (omega arith)
