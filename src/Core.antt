-- ===== src/Core.antt =====
-- shell/core/cli_core.c: the registry of threads, the blocking send and the timed waits.
pub mod Registry
pub mod Send
pub mod Read
