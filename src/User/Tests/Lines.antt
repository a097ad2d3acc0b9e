-- ===== src/User/Tests/Lines.antt =====
-- Strings and a command line in memory.
use demo2s.Base.{ℕ, ◌≤◌, ◌<◌, ◌≡◌, refl, false, some, [], ◌∷◌, arith, ◌==◌, if◌then◌else◌, update}
use demo2s.User.Str.{Bytes, strcmp}
use demo2s.User.Str.Laws.{HasString, strcmp_lem, lexical}
use demo2s.User.Shell.{
  run, output, get_token, skip_white, token_at, word_end, ends_word, runcmd, runcmd_from,
  gettoken_first, gettoken,
}
use demo2s.User.Shell.Words.{get_token_word}

-- The line " ls>a" at address 100.
abbrev line : Bytes
line i =
    if i == 100
    then 32
    else if i == 101
    then 108
    else if i == 102
    then 115
    else if i == 103
    then 62
    else if i == 104
    then 97
    else 0

line-HasString : HasString line 101 (108 ∷ 115 ∷ 62 ∷ 97 ∷ [])
unfolding HasString
line-HasString =
    (refl, omega arith, (refl, omega arith, (refl, omega arith, (refl, omega arith, refl))))

abbrev skipped : Bytes
skipped = update line 100 0

name_read :
    get_token 9 line (some 100)
    ≡ some (record { kind = 119; p1 = some 101; p2 = some 103 }, skipped)
unfolding get_token skip_white token_at word_end
name_read = refl

sign_read :
    get_token 9 skipped (some 103)
    ≡ some (record { kind = 62; p1 = some 103; p2 = some 104 }, update skipped 103 0)
unfolding get_token skip_white token_at word_end
sign_read = refl

get_token_word_example :
    (100 ≤ 101)
    × (101 < 103)
    × (update skipped 103 0 103 ≡ 0)
    × ((j : ℕ)
        → 101 ≤ j
        → j < 103
        → (ends_word (update skipped 103 0 j) ≡ false) × (update skipped 103 0 j ≡ line j))
get_token_word_example =
    get_token_word 9 9 100 101 103 line skipped (update skipped 103 0)
      (record { kind = 62; p1 = some 103; p2 = some 104 }) name_read sign_read

line_planned : runcmd 9 9 line 100 ≡ some (run (output (some 104) ∷ []) (some 101 ∷ []))
unfolding runcmd runcmd_from gettoken_first gettoken get_token skip_white token_at word_end
line_planned = refl

-- The empty string comes before the name.
strcmp_lem_example : strcmp 9 line 105 101 ≡ some (lexical [] (108 ∷ 115 ∷ 62 ∷ 97 ∷ []))
unfolding HasString
strcmp_lem_example =
    strcmp_lem [] (108 ∷ 115 ∷ 62 ∷ 97 ∷ []) 9 105 101 line refl line-HasString (omega arith)
