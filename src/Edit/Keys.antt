-- ===== src/Edit/Keys.antt =====
-- Every byte of the terminal keeps the editor within its buffers.
use stm32f746g_disco.Memory.{Mem}
use stm32f746g_disco.Edit.{Editor, Call}
use stm32f746g_disco.Edit.Bounds.{Safe}

module _ (m p : Mem) where
  -- the editor that is handed on is safe
  record Keeps (x : Editor × Call) : Type 0 where
    safe : Safe m p x.0
