-- ===== src/Kern/Console/Modifiers.antt =====
-- The keyboard's modifiers, by evaluation over their 64 states and the 256 bytes.
use demo2s.Base.{
  ℕ, ◌+◌, ◌-◌, ◌<◌, ◌≡◌, refl, Bool, true, not, ◌&&◌, ◌||◌, arith, ltb, leb, ◌==◌, bit_and, bit_xor,
  bit_or,
}
use demo2s.Base.TestBit.{all_below, all_below_sound}
use demo2s.Kern.Console.Keyboard.{
  kbd_proc_data, char_of, shiftcode, capslock, shift_bit, ctl, charcode, togglecode, entry_at,
}

abbrev pair_test : (ℕ → ℕ → Bool) → ℕ → Bool
pair_test p s = all_below 256 (p s)

for_all :
    (p : ℕ → ℕ → Bool) (s key : ℕ)
    → all_below 64 (pair_test p) ≡ true
    → s < 64
    → key < 256
    → p s key ≡ true
for_all p s key h hs hk = all_below_sound 256 key (p s) (all_below_sound 64 s (pair_test p) h hs) hk

abbrev bounded : ℕ → ℕ → Bool
bounded s key = ltb (kbd_proc_data key s).1 64

bounded_table : all_below 64 (pair_test bounded) ≡ true
unfolding all_below kbd_proc_data
bounded_table = refl

-- The state of the modifiers stays below 64, whatever the keyboard sends.
pub kbd_proc_data_bounded : (s key : ℕ) → s < 64 → key < 256 → (kbd_proc_data key s).1 < 64
kbd_proc_data_bounded s key hs hk = ltb_true (for_all bounded s key bounded_table hs hk)
  where
    ltb_true : {a b : ℕ} → ltb a b ≡ true → a < b
    ltb_true h = ground arith

abbrev is_letter : ℕ → Bool
is_letter c = leb 97 c && leb c 122 || leb 65 c && leb c 90

abbrev case_test : ℕ → ℕ → Bool
case_test s key =
    not (bit_and s ctl == 0)
    || not (is_letter (charcode s key))
    || char_of (bit_xor s (shift_bit + capslock)) key == char_of s key

case_table : all_below 64 (pair_test case_test) ≡ true
unfolding all_below entry_at
case_table = refl

-- Shift and the caps lock undo each other on the letters: with both changed, a key that gives a letter
-- gives the same letter in the same case.
pub char_of_case :
    (s key : ℕ)
    → s < 64
    → key < 256
    → bit_and s ctl ≡ 0
    → is_letter (charcode s key) ≡ true
    → char_of (bit_xor s (shift_bit + capslock)) key ≡ char_of s key
char_of_case s key hs hk no_ctl letter = ground (arith, for_all case_test s key case_table hs hk)

abbrev strokes_test : ℕ → ℕ → Bool
strokes_test s key =
    leb 128 key
    || (kbd_proc_data (key + 128) (kbd_proc_data key s).1).1
        == bit_and (bit_xor s (togglecode key)) (63 - shiftcode key)
      && (kbd_proc_data key (kbd_proc_data key s).1).1 == bit_or s (shiftcode key)

strokes_table : all_below 64 (pair_test strokes_test) ≡ true
unfolding all_below kbd_proc_data
strokes_table = refl

-- A key pressed and released leaves the modifiers as before but for its own: its shift bit is clear
-- and its lock is flipped. Pressed twice, it leaves its lock as it was and its shift bit set.
pub kbd_proc_data_strokes :
    (s key : ℕ)
    → s < 64
    → key < 128
    → ((kbd_proc_data (key + 128) (kbd_proc_data key s).1).1
        ≡ bit_and (bit_xor s (togglecode key)) (63 - shiftcode key))
      × ((kbd_proc_data key (kbd_proc_data key s).1).1 ≡ bit_or s (shiftcode key))
kbd_proc_data_strokes s key hs hk =
    let t = for_all strokes_test s key strokes_table hs (omega arith) in
    (ground arith, ground arith)
