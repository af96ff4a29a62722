-- ===== src/Parse.antt =====
-- shell/core/cli_parse.c: the tokenizer, the command sequencer, the background mark and the walk of
-- the command tree. `Lex` is the common description of quotes and escapes, `Token` the code that
-- splits a line in place.
pub mod Lex
pub mod Token
pub mod Segment
mod Tests
pub mod Background
pub mod Command
