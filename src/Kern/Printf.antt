-- ===== src/Kern/Printf.antt =====
-- kern/printf.c: `ksprintn` and `kprintf`. A string is the list of its characters without the NUL, and the
-- variable arguments are a list of values, each taken as the type that the format asks for. Characters
-- are below 128, since a `char` from there on is negative.
pub mod Digits
pub mod Formats
use demo2s.Base.{
  ℕ, zero, suc, ◌+◌, ◌-◌, ◌*◌, ◌/◌, ◌%◌, ◌^◌, Bool, true, false, not, ◌&&◌, ◌||◌, Option, none,
  some, List, [], ◌∷◌, ◌++◌, ◌==◌, ltb, leb, if◌then◌else◌, bit_and, bit_or, u32, length, map,
}
use demo2s.Base.Text.{codes}

-- A va_list. `quad` is 64 bits wide, `null` is a null `char *`.
mutual
  pub data Arg : Type 0 where
    word : ℕ → Arg
    quad : ℕ → Arg
    text : List ℕ → Arg
    null : Arg
    va_list : Args → Arg

  pub data Args : Type 0 where
    nil : Args
    arg : Arg → Args → Args

-- What `cons_putc` was given, the first character first, and `color`.
pub record Out : Type 0 where
  pub chars : List ℕ
  pub color : ℕ

abbrev pub put : List ℕ → Out → Out
put cs o = record o { chars = o.chars ++ cs }

-- `cons_putc(ch|color)` for each character
abbrev pub colored : ℕ → List ℕ → List ℕ
colored color [] = []
colored color (c ∷ cs) = bit_or c color ∷ colored color cs

abbrev pub put_text : List ℕ → Out → Out
put_text cs o = put (colored o.color cs) o

-- "0123456789abcdef"[d]
abbrev pub digit : ℕ → ℕ
digit d = if ltb d 10 then 48 + d else 87 + d

-- The loop of `ksprintn`. Its buffer is filled from low digits to high ones and printed backwards, so the
-- list has the digit written last first. The buffer has room for 64 digits.
unfoldable pub digits_from : ℕ → ℕ → ℕ → List ℕ → Option (List ℕ)
digits_from zero uq base ds = none
digits_from (suc room) uq base ds =
    let more = digits_from room (uq / base) base (digit (uq % base) ∷ ds) in
    if uq / base == 0 then some (digit (uq % base) ∷ ds) else more

-- Base 0 is a division by zero, base 1 overruns the buffer, and above 16 there are no digits.
unfoldable pub ksprintn : ℕ → ℕ → Option (List ℕ)
ksprintn uq base = if ltb base 2 || ltb 16 base then none else digits_from 64 uq base []

abbrev pub next_word : Args → Option (ℕ × Args)
next_word (arg (word w) rest) = some (w, rest)
next_word _ = none

abbrev pub next_quad : Args → Option (ℕ × Args)
next_quad (arg (quad w) rest) = some (w, rest)
next_quad _ = none

-- `getint`: u_long and u_int are 32 bits wide, and widened without their sign.
abbrev pub getint : Bool → Bool → Args → Option (ℕ × Args)
getint lflag qflag ap = if not lflag && qflag then next_quad ap else next_word ap

-- `padc`, `width`, `lflag`, `qflag`, and whether the loop over a width's digits is running.
pub record Spec : Type 0 where
  pub padc : ℕ
  pub width : ℕ
  pub lflag : Bool
  pub qflag : Bool
  pub in_width : Bool

abbrev pub plain_spec : Spec
plain_spec = record { padc = 32; width = 0; lflag = false; qflag = false; in_width = false }

abbrev pub replicate : ℕ → ℕ → List ℕ
replicate zero c = []
replicate (suc n) c = c ∷ replicate n c

-- `number:` for a width that an `int` holds.
abbrev pub padded : Spec → List ℕ → List ℕ
padded sp ds = replicate (sp.width - length ds) sp.padc ++ ds

abbrev pub put_number : Spec → List ℕ → ℕ → ℕ → Args → Out → Option (Args × Out)
put_number sp prefix uq base ap o = elim (ksprintn uq base) [
  | none ↦ none
  | some ds ↦ some (ap, put (prefix ++ padded sp ds) o)
]

-- The sign of a quad: '-' and the two's complement.
abbrev pub put_signed : Spec → ℕ → Args → Out → Option (Args × Out)
put_signed sp uq ap o =
    if ltb uq (2 ^ 63)
    then put_number sp [] uq 10 ap o
    else put_number sp (45 ∷ []) (2 ^ 64 - uq) 10 ap o

-- `uq & (1 << (n - 1))`, where the shift is an `int` that is widened with its sign.
abbrev pub has_bit : ℕ → ℕ → Bool
has_bit uq n =
    not (bit_and uq (if (n - 1) % 32 == 31 then 2 ^ 64 - 2 ^ 31 else 2 ^ ((n - 1) % 32)) == 0)

-- The loop of %b over the names: what it does with the next character, and `tmp`.
pub data Names : Type 0 where
  at_bit printing skipping : Names

unfoldable pub put_names : ℕ → Names → Bool → List ℕ → List ℕ
put_names uq mode tmp [] = if tmp then 62 ∷ [] else []
put_names uq printing tmp (n ∷ p) =
    let named = n ∷ put_names uq printing tmp p in
    let shown = (if tmp then 44 else 60) ∷ put_names uq printing true p in
    let hidden = put_names uq skipping tmp p in
    if ltb 32 n then named else if has_bit uq n then shown else hidden
put_names uq skipping tmp (n ∷ p) =
    let shown = (if tmp then 44 else 60) ∷ put_names uq printing true p in
    let hidden = put_names uq skipping tmp p in
    if ltb 32 n then hidden else if has_bit uq n then shown else hidden
put_names uq at_bit tmp (n ∷ p) =
    let shown = (if tmp then 44 else 60) ∷ put_names uq printing true p in
    let hidden = put_names uq skipping tmp p in if has_bit uq n then shown else hidden

abbrev sign_extended : ℕ → ℕ
sign_extended w = if ltb w (2 ^ 31) then w else w + (2 ^ 64 - 2 ^ 32)

-- %b takes the base from the first character of its string.
unfoldable pub put_register : Args → Out → Option (Args × Out)
unfolding put_names
put_register (arg (word w) (arg (text (base ∷ p)) rest)) o =
    elim (ksprintn (sign_extended w) base) [
      | none ↦ none
      | some ds ↦
          some (
            rest,
            put (ds ++ (if w == 0 then [] else put_names (sign_extended w) at_bit false p)) o,
          )
    ]
put_register _ o = none

-- `error_string`; the entries from 7 to MAXERROR are null.
abbrev pub error_string : ℕ → Option (List ℕ)
error_string n =
    if n == 1
    then some (codes "unspecified error")
    else if n == 2
    then some (codes "bad environment")
    else if n == 3
    then some (codes "invalid parameter")
    else if n == 4
    then some (codes "out of memory")
    else if n == 5
    then some (codes "out of environments")
    else if n == 6
    then some (codes "env is blocking ipc")
    else none

-- The absolute value of an `int`.
abbrev pub magnitude : ℕ → ℕ
magnitude w = if ltb w (2 ^ 31) then w else 2 ^ 32 - w

-- The `int` -2^31 is its own negation, and `error_string` is then read outside.
unfoldable pub put_error : ℕ → Args → Out → Option (Args × Out)
put_error w ap o = elim (if w == 2 ^ 31 then none else some (error_string (magnitude w))) [
  | none ↦ none
  | some none ↦ put_number plain_spec [] (magnitude w) 10 ap (put_text (codes "error ") o)
  | some (some s) ↦ some (ap, put_text s o)
]

-- `reswitch` on a character that changes the specification: `none` for one that ends it. A digit in the
-- loop over a width's digits goes on with the width; the loop starts anew after another flag.
abbrev is_digit : ℕ → Bool
is_digit c = leb 48 c && leb c 57

unfoldable pub next_spec : ℕ → Spec → Option Spec
next_spec c sp =
    if sp.in_width && is_digit c
    then some (record sp { width = sp.width * 10 + (c - 48) })
    else if c == 48
    then some (record sp { padc = 48; in_width = false })
    else if is_digit c
    then some (record sp { width = c - 48; in_width = true })
    else if c == 108
    then some (record sp { lflag = true; qflag = false; in_width = false })
    else if c == 113
    then some (record sp { qflag = true; lflag = false; in_width = false })
    else none

-- `c` and `C`, `e`, `s`, and the numbers. `deeper` is `kprintf` on the arguments that %r names.
abbrev pub put_char : Option (ℕ × Args) → Out → Option (Args × Out)
put_char none o = none
put_char (some (w, ap)) o = some (ap, put (w ∷ []) o)

abbrev pub set_color : Option (ℕ × Args) → Out → Option (Args × Out)
set_color none o = none
set_color (some (w, ap)) o = some (ap, record o { color = u32 w })

abbrev pub put_error_of : Option (ℕ × Args) → Out → Option (Args × Out)
put_error_of none o = none
put_error_of (some (w, ap)) o = put_error w ap o

abbrev pub put_string : Args → Out → Option (Args × Out)
put_string (arg (text s) ap) o = some (ap, put_text s o)
put_string (arg null ap) o = some (ap, put_text (codes "(null)") o)
put_string _ o = none

abbrev pub put_unsigned : Spec → List ℕ → ℕ → Option (ℕ × Args) → Out → Option (Args × Out)
put_unsigned sp prefix base none o = none
put_unsigned sp prefix base (some (uq, ap)) o = put_number sp prefix uq base ap o

abbrev pub put_decimal : Spec → Option (ℕ × Args) → Out → Option (Args × Out)
put_decimal sp none o = none
put_decimal sp (some (uq, ap)) o = put_signed sp uq ap o

abbrev pub put_nested : (List ℕ → Args → Out → Option Out) → Args → Out → Option (Args × Out)
put_nested deeper (arg (text p) (arg (va_list inner) ap)) o = elim (deeper p inner o) [
  | none ↦ none
  | some o' ↦ some (ap, o')
]
put_nested deeper _ o = none

unfoldable pub directive :
    (List ℕ → Args → Out → Option Out) → ℕ → Spec → Args → Out → Option (Args × Out)
unfolding put_register put_error
directive deeper c sp ap o =
    let number = getint sp.lflag sp.qflag ap in
    if c == 98
    then put_register ap o
    else if c == 99
    then put_char (next_word ap) o
    else if c == 101
    then put_error_of (next_word ap) o
    else if c == 114
    then put_nested deeper ap o
    else if c == 115
    then put_string ap o
    else if c == 67
    then set_color number o
    else if c == 100
    then put_decimal sp number o
    else if c == 117
    then put_unsigned sp [] 10 number o
    else if c == 111
    then put_unsigned sp (48 ∷ []) 8 number o
    else if c == 112
    then put_unsigned sp (48 ∷ 120 ∷ []) 16 (next_word ap) o
    else if c == 120
    then put_unsigned sp [] 16 number o
    else if c == 37
    then some (ap, put (37 ∷ []) o)
    else some (ap, put (37 ∷ (if sp.lflag then 108 ∷ c ∷ [] else c ∷ [])) o)

-- The loop of `kprintf` outside a specification (`none`) or in one. A string that ends in a
-- specification is read past its NUL, which has no value here.
unfoldable pub kprintf_from :
    (List ℕ → Args → Out → Option Out) → Option Spec → List ℕ → Args → Out → Option Out
kprintf_from deeper none [] ap o = some o
kprintf_from deeper none (c ∷ fmt) ap o =
    let text = kprintf_from deeper none fmt ap (put (bit_or c o.color ∷ []) o) in
    let spec = kprintf_from deeper (some plain_spec) fmt ap o in if c == 37 then spec else text
kprintf_from deeper (some sp) [] ap o = none
kprintf_from deeper (some sp) (c ∷ fmt) ap o = elim (next_spec c sp) [
  | some sp' ↦ kprintf_from deeper (some sp') fmt ap o
  | none ↦ elim (directive deeper c sp ap o) [
    | none ↦ none
    | some (ap', o') ↦ kprintf_from deeper none fmt ap' o'
  ]
]

-- `kprintf`, for arguments whose va_lists are nested less deep than the fuel.
unfoldable pub kprintf : ℕ → List ℕ → Args → Out → Option Out
unfolding kprintf_from
kprintf zero fmt ap o = none
kprintf (suc depth) fmt ap o = kprintf_from (kprintf depth) none fmt ap o
