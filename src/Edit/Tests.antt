-- ===== src/Edit/Tests.antt =====
-- Keys typed into the editor of shell/core/cli_edit.c.
use stm32f746g_disco.Prelude.{refl, false, [], arith, codes}
use stm32f746g_disco.Memory.{image}
use stm32f746g_disco.Edit.{normal, Editor, op_insert, op_backspace}
use stm32f746g_disco.Edit.Undo.{SameText, op_backspace-op_insert}

abbrev fresh : Editor
fresh = record {
  line = image (codes "ac");
  len = 2;
  cur = 1;
  overwrite = false;
  hist_nav_on = false;
  rx = normal;
  prev_cr = false;
  esc_p = image [];
  esc_np = 0;
  esc_bad = false;
  bs_swap = false;
  term_width = 80;
  probing_cpr = false;
  tab_list_armed = false;
  render_dirty = false;
}

op_backspace-op_insert_example : SameText (op_backspace (op_insert b'b' fresh)) fresh
op_backspace-op_insert_example = op_backspace-op_insert b'b' fresh (omega arith) (omega arith) refl
