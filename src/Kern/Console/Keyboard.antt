-- ===== src/Kern/Console/Keyboard.antt =====
-- The keyboard decoder of kern/console.c. The rest of a table of 256 entries is 0 (NO). `C('/')` is
-- negative, and written as the 32-bit word that the `int` is.
use demo2s.Base.{
  ℕ, zero, suc, ◌+◌, ◌-◌, ◌%◌, ◌^◌, List, [], ◌∷◌, leb, ◌==◌, ◌&&◌, if◌then◌else◌, bit_and, bit_or,
  bit_xor,
}

-- The modifiers' bits.
abbrev pub shift_bit : ℕ
shift_bit = 1

abbrev pub ctl : ℕ
ctl = 2

abbrev pub alt : ℕ
alt = 4

abbrev pub capslock : ℕ
capslock = 8

abbrev pub numlock : ℕ
numlock = 16

abbrev pub scrolllock : ℕ
scrolllock = 32

abbrev pub shiftcode : ℕ → ℕ
shiftcode key =
    if key == 29
    then ctl
    else if key == 42
    then shift_bit
    else if key == 54
    then shift_bit
    else if key == 56
    then alt
    else 0

abbrev pub togglecode : ℕ → ℕ
togglecode key =
    if key == 58
    then capslock
    else if key == 69
    then numlock
    else if key == 70
    then scrolllock
    else 0

unfoldable pub entry_at : List ℕ → ℕ → ℕ
entry_at [] i = 0
entry_at (v ∷ vs) zero = v
entry_at (v ∷ vs) (suc i) = entry_at vs i

abbrev pub normalmap : List ℕ
normalmap =
    0 ∷ 27 ∷ 49 ∷ 50 ∷ 51 ∷ 52 ∷ 53 ∷ 54 ∷ 55 ∷ 56 ∷ 57 ∷ 48 ∷ 45 ∷ 61 ∷ 8 ∷ 9 ∷ 113 ∷ 119 ∷ 101
    ∷ 114 ∷ 116 ∷ 121 ∷ 117 ∷ 105 ∷ 111 ∷ 112 ∷ 91 ∷ 93 ∷ 10 ∷ 0 ∷ 97 ∷ 115 ∷ 100 ∷ 102 ∷ 103 ∷ 104
    ∷ 106 ∷ 107 ∷ 108 ∷ 59 ∷ 39 ∷ 96 ∷ 0 ∷ 92 ∷ 122 ∷ 120 ∷ 99 ∷ 118 ∷ 98 ∷ 110 ∷ 109 ∷ 44 ∷ 46 ∷ 47
    ∷ 0 ∷ 42 ∷ 0 ∷ 32 ∷ 0 ∷ 0 ∷ 0 ∷ 0 ∷ 0 ∷ 0 ∷ 0 ∷ 0 ∷ 0 ∷ 0 ∷ 0 ∷ 0 ∷ 0 ∷ 55 ∷ 56 ∷ 57 ∷ 45 ∷ 52
    ∷ 53 ∷ 54 ∷ 43 ∷ 49 ∷ 50 ∷ 51 ∷ 48 ∷ 46 ∷ []

abbrev pub shiftmap : List ℕ
shiftmap =
    0 ∷ 27 ∷ 33 ∷ 64 ∷ 35 ∷ 36 ∷ 37 ∷ 94 ∷ 38 ∷ 42 ∷ 40 ∷ 41 ∷ 95 ∷ 43 ∷ 8 ∷ 9 ∷ 81 ∷ 87 ∷ 69 ∷ 82
    ∷ 84 ∷ 89 ∷ 85 ∷ 73 ∷ 79 ∷ 80 ∷ 123 ∷ 125 ∷ 10 ∷ 0 ∷ 65 ∷ 83 ∷ 68 ∷ 70 ∷ 71 ∷ 72 ∷ 74 ∷ 75 ∷ 76
    ∷ 59 ∷ 34 ∷ 126 ∷ 0 ∷ 124 ∷ 90 ∷ 88 ∷ 67 ∷ 86 ∷ 66 ∷ 78 ∷ 77 ∷ 60 ∷ 62 ∷ 63 ∷ 0 ∷ 42 ∷ 0 ∷ 32
    ∷ 0 ∷ 0 ∷ 0 ∷ 0 ∷ 0 ∷ 0 ∷ 0 ∷ 0 ∷ 0 ∷ 0 ∷ 0 ∷ 0 ∷ 0 ∷ 55 ∷ 56 ∷ 57 ∷ 45 ∷ 52 ∷ 53 ∷ 54 ∷ 43 ∷ 49
    ∷ 50 ∷ 51 ∷ 48 ∷ 46 ∷ []

abbrev pub ctlmap : List ℕ
ctlmap =
    0 ∷ 0 ∷ 0 ∷ 0 ∷ 0 ∷ 0 ∷ 0 ∷ 0 ∷ 0 ∷ 0 ∷ 0 ∷ 0 ∷ 0 ∷ 0 ∷ 0 ∷ 0 ∷ 17 ∷ 23 ∷ 5 ∷ 18 ∷ 20 ∷ 25 ∷ 21
    ∷ 9 ∷ 15 ∷ 16 ∷ 0 ∷ 0 ∷ 13 ∷ 0 ∷ 1 ∷ 19 ∷ 4 ∷ 6 ∷ 7 ∷ 8 ∷ 10 ∷ 11 ∷ 12 ∷ 0 ∷ 0 ∷ 0 ∷ 0 ∷ 28 ∷ 26
    ∷ 24 ∷ 3 ∷ 22 ∷ 2 ∷ 14 ∷ 13 ∷ 0 ∷ 0 ∷ 4294967279 ∷ 0 ∷ 0 ∷ []

-- `charcode[shift&(CTL|SHIFT)][key]`
abbrev pub charcode : ℕ → ℕ → ℕ
charcode shift key =
    let m = bit_and shift (ctl + shift_bit) in
    if m == 0
    then entry_at normalmap key
    else if m == 1
    then entry_at shiftmap key
    else entry_at ctlmap key

-- The swap of case under CAPSLOCK.
abbrev pub swap_case : ℕ → ℕ
swap_case c = if leb 97 c && leb c 122 then c - 32 else if leb 65 c && leb c 90 then c + 32 else c

abbrev pub char_of : ℕ → ℕ → ℕ
char_of shift key =
    let c = charcode shift key in if bit_and shift capslock == 0 then c else swap_case c

-- `kbd_proc_data` on the byte `key` that the controller has: the result, and the new `shift`. Without one it
-- returns -1, which ends `cons_intr`.
unfoldable pub kbd_proc_data : ℕ → ℕ → ℕ × ℕ
unfolding entry_at
kbd_proc_data key shift =
    if leb 128 key
    then (0, bit_and shift (2 ^ 32 - 1 - shiftcode (key % 128)))
    else let down = bit_xor (bit_or shift (shiftcode key)) (togglecode key) in
      (char_of down key, down)
