-- ===== src/Complete/Tests.antt =====
-- Tab behind `le` with the commands `led`, `ledger` and `log`.
use stm32f746g_disco.Prelude.{
  ◌+◌, ◌≤◌, ◌<◌, ◌≡◌, refl, inr, false, some, List, [], ◌++◌, arith, length, Bytes, codes,
}
use stm32f746g_disco.Memory.{image}
use stm32f746g_disco.Parse.Command.{Cmd, command, leaf, Cmds, end, entry}
use stm32f746g_disco.Edit.{Editor, normal}
use stm32f746g_disco.Edit.Bounds.{Safe}
use stm32f746g_disco.Complete.{Answer, scan_candidates, resolve_from, cli_tab_complete}
use stm32f746g_disco.Complete.Scan.{tails, AllStart, extension, extension-longest}
use stm32f746g_disco.Complete.Insert.{text, before, behind}
use stm32f746g_disco.Complete.Resolve.{word, tab-returns, tab-extends}

abbrev plain : Bytes → Cmd
plain n = command n leaf (some 1) 0 0

abbrev roots : Cmds
roots =
    entry (plain (codes "led")) (entry (plain (codes "log")) (entry (plain (codes "ledger")) end))

extension-longest_example :
    ((scan_candidates roots (codes "le")).count ≡ length (tails (codes "le") roots))
    × AllStart (extension (codes "le") roots) (tails (codes "le") roots)
    × (length (codes "d") ≤ length (extension (codes "le") roots))
extension-longest_example =
    extension-longest (codes "le") (codes "d") roots (refl, (refl, tt)) (omega arith)

extension_d : extension (codes "le") roots ≡ codes "d"
extension_d = refl

abbrev typed : Editor
typed = record {
  line = image (codes "le");
  len = 2;
  cur = 2;
  overwrite = false;
  hist_nav_on = false;
  rx = normal;
  prev_cr = false;
  esc_p = image [];
  esc_np = 0;
  esc_bad = false;
  bs_swap = false;
  term_width = 80;
  probing_cpr = false;
  tab_list_armed = false;
  render_dirty = false;
}

typed-Safe : Safe (image (codes "le")) (image []) typed
unfolding image
typed-Safe = record {
  within = omega arith;
  room = omega arith;
  ends = refl;
  params = omega arith;
  wide = inr (omega arith, omega arith);
  outside = λ i b. refl;
  beside = λ i b. refl;
}

tab-returns_example :
    (r : List Answer × Editor) × (cli_tab_complete 256 roots typed ≡ some r)
    × Safe (image (codes "le")) (image []) r.1
tab-returns_example =
    tab-returns (image (codes "le")) (image []) 256 roots typed typed-Safe (omega arith)

two_found : 1 < (scan_candidates roots (word typed)).count
unfolding image
two_found = omega arith

has_room : typed.len + length (extension (word typed) roots) ≤ 255
unfolding image
has_room = omega arith

at_root : resolve_from 256 roots [] ≡ some (some roots)
unfolding resolve_from
at_root = refl

tab-extends_example :
    (r : List Answer × Editor) × (cli_tab_complete 256 roots typed ≡ some r)
    × (text r.1 ≡ before typed ++ extension (word typed) roots ++ behind typed)
unfolding image
tab-extends_example =
    tab-extends (image (codes "le")) (image []) 256 roots roots typed typed-Safe at_root two_found
      has_room
