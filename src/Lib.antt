-- ===== src/Lib.antt =====
-- The firmware of the STM32F746G-DISCO board: its command shell and its services.
--
-- The editor of shell/core/cli_edit.c gathers a line from the bytes of the terminal. The shell takes
-- it apart with shell/core/cli_parse.c: `cli_next_segment` cuts it at `;`,
-- `cli_parse` takes tokens off a segment with `next_token`, walks down the command tree and checks the
-- arguments. Entered lines go to the history of shell/core/cli_history.c. The camera hands its frames
-- out through svc/frame_pipeline.c, whose slots the sinks of other subsystems pin. Files leave the board
-- over svc/ymodem.c, and the bytes of the shell and of printf over shell/backend/cli_backend_uart.c.
--
-- Files:
-- Prelude has the names of the library, Boolean tests on numbers, lists and byte strings.
-- Memory is what a `char *` points into, a value at each address, and C strings in it.
-- Parse is for shell/core/cli_parse.c. Parse/Lex is the description of quotes and escapes, one state
--   machine over bytes; Parse/Token is `next_token` and `cli_tokenize`, which compact the line in
--   place; Parse/Segment is `cli_next_segment`; Parse/Background is
--   `cli_segment_is_background`; Parse/Command is `cli_parse`, on tokens as byte
--   strings.
-- History is for shell/core/cli_history.c, a ring of packed strings in a byte buffer.
-- Pipeline is for svc/frame_pipeline.c. The descriptors of frames are slot numbers, the sinks are numbers;
--   a locked part of a function is one step. Pipeline/Pins lists who holds which frame beside the code's
--   counts, Pipeline/Protocol is the relation of steps, and of runs, that uses the operations as the
--   header of svc/frame_pipeline.h asks for: a pin is given back once, by who holds it.
-- Ymodem is for svc/ymodem.c, the sender of files. `struct ym_io` is a list of the receiver's answers, with
--   silence behind it, and of the faults of `put`; `struct ym_source` is a byte string with the sizes
--   that its reads give. The staging buffer is a byte string, made anew for each block.
--   Ymodem/Receiver is a receiver that checks the packets, written from the protocol and not from the code.
-- Edit is for shell/core/cli_edit.c, the buffer and the state machine of the line editor. A byte may end
--   with a call of shell/core/cli_history.c, of the completion or of the dispatch, which is its result.
-- Uart is for shell/backend: Uart/Ring is the byte ring of cli_uart_ring.h, Uart the transport of
--   cli_backend_uart.c, where the outcome of a HAL call is an argument. Uart/Machine adds the hardware: it
--   sends the bytes handed to it where they stand and then calls back. The interrupts between the rounds
--   of `tx_putc_spin` are a function of the number of the round.
-- Complete is for shell/core/cli_complete.c, on the command tree of Parse/Command and the editor of Edit. What it
--   sends to the terminal is a list of answers.
-- Core/Registry is the registry of threads of shell/core/cli_core.c, Core/Send its blocking send, and Core/Read
-- its timed waits; what the transport, the clock and the event flags answer in a round of the loop is a turn.
-- Jobs is for shell/core/cli_job.c, the pool of background jobs. What runs under TX_DISABLE is one operation;
--   the states of the threads and the outcome of tx_thread_create are ThreadX's. Jobs/Protocol is the relation
--   of the steps of several reapers and launchers, with kills and workers that end between them; the stores of a
--   launcher behind its registration, which no lock holds together, are steps of their own there.
-- Format is for svc/fmt.c. What the formatter puts is a list of bytes; the sink of `fmt_vsnformat` is
--   `snbuf_putc` on the bytes stored so far.
--
-- Bytes and addresses are numbers; the conversions to `uint16_t` and `uint32_t` are written out, and in the editor and in
-- `frame_pipeline_read_latest` the differences that would wrap too. The
-- counts `_pins` and `refcount`, of type `int`, are unbounded numbers.
--
-- Fuel: a scan of a C string takes more fuel than the string is long, a walk along the history more than
-- it has entries, a wait for the receiver more than its answers and the timeouts that are left, the loop
-- over the blocks more than the file has bytes. Each theorem names the fuel that it needs.
--
-- Not modelled: what the editor draws; the lengths of the timeouts of svc/ymodem.c; the
-- drivers, which are register accesses; the calls of ThreadX, FileX, NetX Duo, GUIX
-- and the inference runtime; the redraw of the line behind a recall from the history; the callbacks of a
-- sink, which run between the steps.
pub mod Prelude
pub mod Memory
pub mod Parse
pub mod History
pub mod Pipeline
pub mod Ymodem
pub mod Edit
pub mod Format
pub mod Uart
pub mod Core
pub mod Jobs
pub mod Complete
