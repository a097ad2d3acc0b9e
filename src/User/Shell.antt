-- ===== src/User/Shell.antt =====
-- user/sh.c: `_gettoken`, `gettoken`, and the line that `runcmd` makes of the tokens. The line is in
-- memory, where the end of each token is overwritten by a NUL. A loop that waits for a NUL takes a
-- number of bytes that it may look at.
pub mod Words
pub mod Plans
use demo2s.Base.{
  ℕ, zero, suc, ◌+◌, Bool, true, false, not, ◌&&◌, ◌||◌, Option, none, some, List, [], ◌∷◌, ◌++◌,
  ◌==◌, if◌then◌else◌, update, length,
}
use demo2s.User.Str.{Bytes}

-- WHITESPACE and SYMBOLS
abbrev pub is_white : ℕ → Bool
is_white c = c == 32 || c == 9 || c == 13 || c == 10

abbrev pub is_symbol : ℕ → Bool
is_symbol c = c == 60 || c == 124 || c == 62 || c == 38 || c == 59 || c == 40 || c == 41

-- `while(strchr(WHITESPACE, *s)) *s++ = 0;`
unfoldable pub skip_white : ℕ → Bytes → ℕ → Option (ℕ × Bytes)
skip_white zero m s = none
skip_white (suc room) m s =
    let rest = skip_white room (update m s 0) (s + 1) in
    if is_white (m s) then rest else some (s, m)

abbrev pub ends_word : ℕ → Bool
ends_word c = c == 0 || is_white c || is_symbol c

-- `while(*s && !strchr(WHITESPACE SYMBOLS, *s)) s++;`
unfoldable pub word_end : ℕ → Bytes → ℕ → Option ℕ
word_end zero m s = none
word_end (suc room) m s =
    let rest = word_end room m (s + 1) in if ends_word (m s) then some s else rest

-- What `_gettoken` returns: 0, a symbol, or 'w', with `*p1` and `*p2`.
pub record Token : Type 0 where
  pub kind : ℕ
  pub p1 : Option ℕ
  pub p2 : Option ℕ

abbrev pub no_token : Token
no_token = record { kind = 0; p1 = none; p2 = none }

abbrev pub word_token : Bytes → ℕ → Option ℕ → Option (Token × Bytes)
word_token m s none = none
word_token m s (some e) = some (record { kind = 119; p1 = some s; p2 = some e }, m)

abbrev pub symbol_token : Bytes → ℕ → Token × Bytes
symbol_token m s = (record { kind = m s; p1 = some s; p2 = some (s + 1) }, update m s 0)

-- The token that starts at s, past the white space.
unfoldable pub token_at : ℕ → Bytes → ℕ → Option (Token × Bytes)
unfolding word_end
token_at room m s =
    if m s == 0
    then some (no_token, m)
    else if is_symbol (m s)
    then some (symbol_token m s)
    else word_token m s (word_end room m s)

-- `_gettoken`. On a null pointer it leaves `*p1` and `*p2` as they are, which then are null already.
unfoldable pub get_token : ℕ → Bytes → Option ℕ → Option (Token × Bytes)
unfolding skip_white token_at
get_token room m none = some (no_token, m)
get_token room m (some s) = elim (skip_white room m s) [
  | none ↦ none
  | some (s', m') ↦ token_at room m' s'
]

-- The static variables of `gettoken`, and memory.
pub record Lexer : Type 0 where
  pub mem : Bytes
  pub ahead : Token

-- `gettoken(s, 0)`
unfoldable pub gettoken_first : ℕ → Bytes → ℕ → Option Lexer
unfolding get_token
gettoken_first room m s = elim (get_token room m (some s)) [
  | none ↦ none
  | some (t, m') ↦ some (record { mem = m'; ahead = t })
]

-- `gettoken(0, &t)`: the token that was read ahead, while the next one is read.
unfoldable pub gettoken : ℕ → Lexer → Option (Token × Lexer)
unfolding get_token
gettoken room l = elim (get_token room l.mem l.ahead.p2) [
  | none ↦ none
  | some (t, m') ↦ some (l.ahead, record { mem = m'; ahead = t })
]

-- `<` and `>` with the address of the name of the file.
pub data Redirect : Type 0 where
  input output : Option ℕ → Redirect

-- What a shell does with the rest of its line: it prints an error and exits; or it redirects, in order,
-- and runs a program; or it redirects, forks, runs a program that writes to the pipe, and the child
-- goes on with the rest. A program without a name is not run.
pub data Plan : Type 0 where
  failed : Plan
  run : List Redirect → List (Option ℕ) → Plan
  piped : List Redirect → List (Option ℕ) → Plan → Plan

abbrev pub maxargs : ℕ
maxargs = 16

-- The token after < (60) or > (62) must be a word; `next` goes on with the line.
abbrev pub redirected :
    (Lexer → List Redirect → Option Plan) → ℕ → List Redirect → Option (Token × Lexer) → Option Plan
redirected next sign redirects none = none
redirected next sign redirects (some (f, l)) =
    if f.kind == 119
    then next l (redirects ++ (if sign == 60 then input f.p1 else output f.p1) ∷ [])
    else some failed

abbrev pub pipe_to : List Redirect → List (Option ℕ) → Option Plan → Option Plan
pipe_to redirects argv none = none
pipe_to redirects argv (some right) = some (piped redirects argv right)

-- The `switch` of `runcmd`. A symbol other than <, > and | is passed over.
abbrev pub on_token :
    (Lexer → List Redirect → List (Option ℕ) → Option Plan)
    → ℕ
    → List Redirect
    → List (Option ℕ)
    → Option (Token × Lexer)
    → Option Plan
on_token next room redirects argv none = none
on_token next room redirects argv (some (t, l)) =
    if t.kind == 0
    then some (run redirects argv)
    else if t.kind == 119
    then (if length argv == maxargs then some failed else next l redirects (argv ++ t.p1 ∷ []))
    else if t.kind == 60 || t.kind == 62
    then redirected (λ l2 rs. next l2 rs argv) t.kind redirects (gettoken room l)
    else if t.kind == 124
    then pipe_to redirects argv (next l [] [])
    else next l redirects argv

-- `runcmd` from the next token on, with the redirections and arguments so far; `left` tokens at most.
unfoldable pub runcmd_from : ℕ → ℕ → Lexer → List Redirect → List (Option ℕ) → Option Plan
unfolding gettoken
runcmd_from zero room l redirects argv = none
runcmd_from (suc left) room l redirects argv =
    on_token (runcmd_from left room) room redirects argv (gettoken room l)

unfoldable pub runcmd : ℕ → ℕ → Bytes → ℕ → Option Plan
unfolding gettoken_first runcmd_from
runcmd left room m s = elim (gettoken_first room m s) [
  | none ↦ none
  | some l ↦ runcmd_from left room l [] []
]
