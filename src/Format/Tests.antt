-- ===== src/Format/Tests.antt =====
-- Formats of svc/fmt.c.
use stm32f746g_disco.Prelude.{◌≡◌, refl, none, some, List, [], ◌∷◌, arith, codes}
use stm32f746g_disco.Format.{Arg, word, text, fmt_vformat, fmt_vsnformat}
use stm32f746g_disco.Format.Output.{fmt_vsnformat-take}

abbrev args : List Arg
args = word 0xFFFFFFFE ∷ word 0x2A ∷ text none ∷ []

formatted : fmt_vformat 30 (codes "%4d|%04x|%s%%") args ≡ some (codes "  -2|002a|(null)%")
unfolding fmt_vformat
formatted = refl

fmt_vsnformat-take_example : fmt_vsnformat 30 5 (codes "%4d|%04x|%s%%") args ≡ some (codes "  -2")
fmt_vsnformat-take_example =
    fmt_vsnformat-take 30 5 (codes "%4d|%04x|%s%%") args (λ e. omega (arith, e)) formatted
