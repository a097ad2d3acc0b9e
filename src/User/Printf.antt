-- ===== src/User/Printf.antt =====
-- user/printf.c: `vsnprintf` into a buffer, and what `warn` and `_panic` put together with it. The
-- arguments, the flags of a directive and the digits of a number are those of kern/printf.c, which
-- has the same code for them, but numbers are 32 bits wide: `q` is accepted and has no effect.
-- Addresses are numbers; `buf` and `ebuf` are the source's pointers.
pub mod Sent
pub mod Content
pub mod Truncated
pub mod Messages
pub mod Decimal
use demo2s.Base.{
  ℕ, zero, suc, ◌+◌, ◌-◌, ◌^◌, ◌||◌, false, Option, none, some, List, [], ◌∷◌, ◌++◌, ◌==◌, ltb, leb,
  if◌then◌else◌, update, u8,
}
use demo2s.Base.Text.{codes}
use demo2s.User.Str.{Bytes}
use demo2s.Kern.Printf.{
  Args, nil, arg, word, text, null, va_list, digits_from, next_word, Spec, plain_spec, padded,
  put_names, at_bit, next_spec, magnitude,
}

-- `*pbuf`, the memory and `color`.
pub record Dest : Type 0 where
  pub buf : ℕ
  pub mem : Bytes
  pub color : ℕ

-- A character for a full buffer is dropped, the last place gets a NUL, and is the next one to be
-- written.
unfoldable pub buf_putc : ℕ → ℕ → Dest → Dest
buf_putc ebuf ch d =
    if leb ebuf d.buf
    then record d { buf = ebuf - 1; mem = update d.mem (ebuf - 1) 0 }
    else record d { buf = d.buf + 1; mem = update d.mem d.buf (u8 ch) }

unfoldable pub buf_puts : ℕ → List ℕ → Dest → Dest
buf_puts ebuf [] d = d
buf_puts ebuf (c ∷ cs) d = buf_puts ebuf cs (buf_putc ebuf c d)

-- The digits in the order in which they are read from the buffer. `numbuf` has room for 64; base 0 is
-- a division by zero, base 1 overruns the buffer, and above 16 there are no digits.
unfoldable pub printnum : ℕ → ℕ → Option (List ℕ)
printnum uq base = if ltb base 2 || ltb 16 base then none else digits_from 64 uq base []

-- What a directive does: it puts characters, sets the colour, or formats further arguments by a call
-- of `snprintf` or `vsnprintf`. With the arguments that are left.
pub data Step : Type 0 where
  emit : List ℕ → Args → Step
  recolor : ℕ → Args → Step
  call : List ℕ → Args → Args → Step

-- `number:`
abbrev pub emit_number : Spec → List ℕ → ℕ → ℕ → Args → Option Step
emit_number sp prefix uq base ap = elim (printnum uq base) [
  | none ↦ none
  | some ds ↦ some (emit (prefix ++ padded sp ds) ap)
]

abbrev pub emit_unsigned : Spec → List ℕ → ℕ → Option (ℕ × Args) → Option Step
emit_unsigned sp prefix base none = none
emit_unsigned sp prefix base (some (uq, ap)) = emit_number sp prefix uq base ap

-- %d: '-' and the two's complement.
abbrev pub emit_decimal : Spec → Option (ℕ × Args) → Option Step
emit_decimal sp none = none
emit_decimal sp (some (uq, ap)) =
    if ltb uq (2 ^ 31)
    then emit_number sp [] uq 10 ap
    else emit_number sp (45 ∷ []) (2 ^ 32 - uq) 10 ap

abbrev pub emit_char : Option (ℕ × Args) → Option Step
emit_char none = none
emit_char (some (w, ap)) = some (emit (w ∷ []) ap)

abbrev pub emit_string : Args → Option Step
emit_string (arg (text s) ap) = some (emit s ap)
emit_string (arg null ap) = some (emit (codes "(null)") ap)
emit_string _ = none

abbrev pub recolor_by : Option (ℕ × Args) → Option Step
recolor_by none = none
recolor_by (some (w, ap)) = some (recolor w ap)

-- %b takes the base from the first character of its string.
unfoldable pub emit_register : Args → Option Step
unfolding put_names
emit_register (arg (word w) (arg (text (base ∷ p)) ap)) = elim (printnum w base) [
  | none ↦ none
  | some ds ↦ some (emit (ds ++ (if w == 0 then [] else put_names w at_bit false p)) ap)
]
emit_register _ = none

-- `error_string[n]` for n up to MAXERROR
unfoldable pub error_text : ℕ → Option (List ℕ)
error_text n =
    if n == 1
    then some (codes "unspecified error")
    else if n == 2
    then some (codes "bad environment")
    else if n == 3
    then some (codes "invalid parameter")
    else if n == 4
    then some (codes "out of memory")
    else if n == 5
    then some (codes "out of environments")
    else if n == 6
    then some (codes "env is not recving")
    else if n == 7
    then some (codes "no free space on disk")
    else if n == 8
    then some (codes "too many files are open")
    else if n == 9
    then some (codes "file or block not found")
    else if n == 10
    then some (codes "invalid path")
    else if n == 11
    then some (codes "file already exists")
    else if n == 12
    then some (codes "file is not a valid executable")
    else none

-- %e: the `int` -2^31 is its own negation, and `error_string` is then read outside.
abbrev pub call_error_text : ℕ → Args → Option (List ℕ) → Step
call_error_text n ap none = call (codes "error %d") (arg (word n) nil) ap
call_error_text n ap (some s) = call (codes "%s") (arg (text s) nil) ap

unfoldable pub call_error : Option (ℕ × Args) → Option Step
unfolding error_text
call_error none = none
call_error (some (w, ap)) =
    if w == 2 ^ 31 then none else some (call_error_text (magnitude w) ap (error_text (magnitude w)))

abbrev pub call_nested : Args → Option Step
call_nested (arg (text p) (arg (va_list inner) ap)) = some (call p inner ap)
call_nested _ = none

unfoldable pub step_of : ℕ → Spec → Args → Option Step
unfolding emit_register call_error
step_of c sp ap =
    if c == 98
    then emit_register ap
    else if c == 99
    then emit_char (next_word ap)
    else if c == 101
    then call_error (next_word ap)
    else if c == 114
    then call_nested ap
    else if c == 115
    then emit_string ap
    else if c == 67
    then recolor_by (next_word ap)
    else if c == 100
    then emit_decimal sp (next_word ap)
    else if c == 117
    then emit_unsigned sp [] 10 (next_word ap)
    else if c == 111
    then emit_unsigned sp [] 8 (next_word ap)
    else if c == 112
    then emit_unsigned sp (48 ∷ 120 ∷ []) 16 (next_word ap)
    else if c == 120
    then emit_unsigned sp [] 16 (next_word ap)
    else if c == 37
    then some (emit (37 ∷ []) ap)
    else some (emit (37 ∷ (if sp.lflag then 108 ∷ c ∷ [] else c ∷ [])) ap)

-- `deeper` is `vsnprintf` from the current `buf` on to the same `ebuf`, which is what `ebuf-buf` is the
-- size of, and `buf +=` its result.
abbrev pub perform : (List ℕ → Args → Dest → Option Dest) → ℕ → Step → Dest → Option (Args × Dest)
perform deeper ebuf (emit cs ap) d = some (ap, buf_puts ebuf cs d)
perform deeper ebuf (recolor w ap) d = some (ap, record d { color = w })
perform deeper ebuf (call fmt inner ap) d = elim (deeper fmt inner d) [
  | none ↦ none
  | some d' ↦ some (ap, d')
]

abbrev pub perform_if :
    (List ℕ → Args → Dest → Option Dest) → ℕ → Option Step → Dest → Option (Args × Dest)
perform_if deeper ebuf none d = none
perform_if deeper ebuf (some st) d = perform deeper ebuf st d

-- The loop up to the format's NUL, outside a specification (`none`) or in one. A format that ends in a
-- specification is read past its NUL, which has no value here.
unfoldable pub format_from :
    (List ℕ → Args → Dest → Option Dest) → ℕ → Option Spec → List ℕ → Args → Dest → Option Dest
format_from deeper ebuf none [] ap d = some d
format_from deeper ebuf none (c ∷ fmt) ap d =
    let plain = format_from deeper ebuf none fmt ap (buf_putc ebuf c d) in
    let spec = format_from deeper ebuf (some plain_spec) fmt ap d in if c == 37 then spec else plain
format_from deeper ebuf (some sp) [] ap d = none
format_from deeper ebuf (some sp) (c ∷ fmt) ap d = elim (next_spec c sp) [
  | some sp' ↦ format_from deeper ebuf (some sp') fmt ap d
  | none ↦ elim (perform_if deeper ebuf (step_of c sp ap) d) [
    | none ↦ none
    | some (ap', d') ↦ format_from deeper ebuf none fmt ap' d'
  ]
]

-- The format's NUL is put, and the result is `buf-1-obuf`: here the address `buf-1`.
unfoldable pub put_end : ℕ → Dest → Dest
put_end ebuf d = let d' = buf_putc ebuf 0 d in record d' { buf = d'.buf - 1 }

abbrev pub finished : ℕ → Option Dest → Option Dest
finished ebuf none = none
finished ebuf (some d) = some (put_end ebuf d)

-- `vsnprintf(buf, ebuf-buf, fmt, ap)`, for calls that are nested less deep than the fuel.
unfoldable pub vsnprintf : ℕ → ℕ → List ℕ → Args → Dest → Option Dest
vsnprintf zero ebuf fmt ap d = none
vsnprintf (suc depth) ebuf fmt ap d =
    finished ebuf (format_from (vsnprintf depth ebuf) ebuf none fmt ap d)

-- `n += snprintf(buf+n, sizeof buf-n, ...)`, one call after the other.
unfoldable pub append_all : ℕ → ℕ → List (List ℕ × Args) → Dest → Option Dest
append_all depth ebuf [] d = some d
append_all depth ebuf ((fmt, ap) ∷ calls) d = elim (vsnprintf depth ebuf fmt ap d) [
  | none ↦ none
  | some d' ↦ append_all depth ebuf calls d'
]

-- What `argv0` adds, and the message of `warn` in the buffer of 256 bytes at `b`.
abbrev pub named : Option (List ℕ) → List (List ℕ × Args)
named none = []
named (some argv0) = (codes "%s: ", arg (text argv0) nil) ∷ []

unfoldable pub warn_calls : Option (List ℕ) → List ℕ → Args → List (List ℕ × Args)
warn_calls argv0 fmt ap =
    named argv0 ++ (codes "warning: ", nil) ∷ (fmt, ap) ∷ (codes "\n", nil) ∷ []

unfoldable pub panic_calls : Option (List ℕ) → List ℕ → ℕ → List ℕ → Args → List (List ℕ × Args)
panic_calls argv0 file line fmt ap =
    named argv0
    ++ (codes "user panic at %s:%d: ", arg (text file) (arg (word line) nil))
      ∷ (fmt, ap)
      ∷ (codes "\n", nil)
      ∷ []
