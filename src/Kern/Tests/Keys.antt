-- ===== src/Kern/Tests/Keys.antt =====
-- The keyboard decoder at concrete keys.
use demo2s.Base.{◌≡◌, refl}
use demo2s.Kern.Console.Keyboard.{char_of, entry_at}

-- Ctrl-C is 3, which destroys the current environment in `cons_intr`.
ctrl_c : char_of 2 46 ≡ 3
unfolding entry_at
ctrl_c = refl
