-- ===== src/Kern/Console/Screen.antt =====
-- `cga_putc` of kern/console.c on the text buffer. The cursor registers are output only.
use demo2s.Base.{
  ℕ, ◌+◌, ◌-◌, ◌*◌, ◌/◌, ◌%◌, ◌≤◌, ◌<◌, ◌≡◌, ◌∙◌, refl, arith, u16, bit_or, update, ltb, leb, ◌==◌,
  if◌then◌else◌, Bool-cases, inl, inr,
}

-- `crt_buf` and `crt_pos`
pub record Crt : Type 0 where
  pub buf : ℕ → ℕ
  pub pos : ℕ

abbrev pub crt_cols : ℕ
crt_cols = 80

abbrev pub crt_size : ℕ
crt_size = 2000

-- The scroll at the end of `cga_putc`: the copy reads one row past the buffer, then the last row is
-- blanked.
unfoldable pub scroll : Crt → Crt
scroll s =
    if leb crt_size s.pos
    then record {
      buf = λ i.
          if ltb i crt_size
          then (if leb (crt_size - crt_cols) i then 0x0720 else s.buf (i + crt_cols))
          else s.buf i;
      pos = s.pos - crt_cols;
    }
    else s

-- The arms of the `switch` but that of the tab.
unfoldable pub place : ℕ → Crt → Crt
place c s =
    let ch = c % 256 in
    if ch == 8
    then (if s.pos == 0 then s else record {
      buf = update s.buf (s.pos - 1) (u16 (bit_or (c / 256 * 256) 32));
      pos = s.pos - 1;
    })
    else if ch == 10
    then record s { pos = s.pos + crt_cols - (s.pos + crt_cols) % crt_cols }
    else if ch == 13
    then record s { pos = s.pos - s.pos % crt_cols }
    else record { buf = update s.buf s.pos (u16 c); pos = s.pos + 1 }

-- `if (!(c & ~0xff)) c |= 0x0700;`
abbrev pub with_attribute : ℕ → ℕ
with_attribute c = if c / 256 == 0 then bit_or c 0x0700 else c

unfoldable pub put_plain : ℕ → Crt → Crt
put_plain c s = scroll (place (with_attribute c) s)

-- A tab is five spaces, each put with its own scroll.
unfoldable pub cga_putc : ℕ → Crt → Crt
cga_putc c s =
    if with_attribute c % 256 == 9
    then scroll (put_plain 32 (put_plain 32 (put_plain 32 (put_plain 32 (put_plain 32 s)))))
    else put_plain c s

-- The cursor is on the screen, and the memory past the screen is that of before.
abbrev pub OnScreen : (ℕ → ℕ) → ℕ → Crt → Type 0
OnScreen buf i s = (s.pos < crt_size) × (s.buf i ≡ buf i)

place-OnScreen :
    (c i : ℕ) (s : Crt)
    → s.pos < crt_size
    → crt_size ≤ i
    → ((place c s).pos < crt_size + crt_cols) × ((place c s).buf i ≡ s.buf i)
unfolding place
place-OnScreen c i s on past = (ground arith, ground arith)

scroll-OnScreen :
    (i : ℕ) (s : Crt) → s.pos < crt_size + crt_cols → crt_size ≤ i → OnScreen s.buf i (scroll s)
unfolding scroll
scroll-OnScreen i s near past = (ground arith, ground arith)

put_plain-OnScreen :
    (c i : ℕ) (buf : ℕ → ℕ) (s : Crt)
    → crt_size ≤ i
    → OnScreen buf i s
    → OnScreen buf i (put_plain c s)
unfolding put_plain
put_plain-OnScreen c i buf s past h =
    let p = place-OnScreen (with_attribute c) i s h.0 past in
    let q = scroll-OnScreen i (place (with_attribute c) s) (omega (arith, p)) past in
    (q.0, q.1 ∙ p.1 ∙ h.1)

put_spaces-OnScreen :
    (i : ℕ) (s : Crt)
    → s.pos < crt_size
    → crt_size ≤ i
    → OnScreen s.buf i (put_plain 32 (put_plain 32 (put_plain 32 (put_plain 32 (put_plain 32 s)))))
put_spaces-OnScreen i s on past = go _ (go _ (go _ (go _ (go s (on, refl)))))
  where
    go : (t : Crt) → OnScreen s.buf i t → OnScreen s.buf i (put_plain 32 t)
    go t h = put_plain-OnScreen 32 i s.buf t past h

-- `cga_putc` keeps the cursor on the screen, whatever the character, and writes nowhere outside the
-- 2000 cells of the screen.
pub cga_putc-OnScreen :
    (c i : ℕ) (s : Crt)
    → s.pos < crt_size
    → crt_size ≤ i
    → ((cga_putc c s).pos < crt_size) × ((cga_putc c s).buf i ≡ s.buf i)
unfolding cga_putc
cga_putc-OnScreen c i s on past = elim (Bool-cases (with_attribute c % 256 == 9)) [
  | inl tab ↦
      let t = put_spaces-OnScreen i s on past in
      let q = scroll-OnScreen i _ (omega (arith, t)) past in rw tab (q.0, q.1 ∙ t.1)
  | inr other ↦ rw other (put_plain-OnScreen c i s.buf s past (on, refl))
]
