-- ===== src/User/Tests/Messages.antt =====
-- Formatted output at concrete formats.
use demo2s.Base.{ℕ, ◌+◌, ◌≤◌, ◌<◌, ◌≡◌, ◌⊎◌, refl, some, List, length, arith}
use demo2s.Base.Text.{codes}
use demo2s.Kern.Printf.{Args, nil, arg, word, text, next_spec}
use demo2s.User.Str.Laws.{HasString}
use demo2s.User.Printf.{Dest, vsnprintf, step_of, append_all, warn_calls}
use demo2s.User.Printf.Sent.{sent, sent_from}
use demo2s.User.Printf.Content.{Ended, vsnprintf-Ended}
use demo2s.User.Printf.Truncated.{take, vsnprintf-take}
use demo2s.User.Printf.Messages.{sent_all, warn_calls-Ended}

abbrev fresh : Dest
fresh = record { buf = 1000; mem = λ i. 170; color = 0 }

-- "ok %s" with "abc"
abbrev greeting : List ℕ
greeting = codes "ok %s"

abbrev greeted : Args
greeted = arg (text (codes "abc")) nil

sent_greeting : sent 1 greeting greeted ≡ some (codes "ok abc")
unfolding sent sent_from step_of next_spec
sent_greeting = refl

-- Four bytes hold the first three characters.
vsnprintf-take_example :
    (d' : Dest) × (vsnprintf 1 1004 greeting greeted fresh ≡ some d')
    × HasString d'.mem 1000 (take 3 (codes "ok abc"))
    × ((i : ℕ) → (i < 1000) ⊎ (1004 ≤ i) → d'.mem i ≡ 170)
    × (((length (codes "ok abc") ≤ 3) × (d'.buf ≡ 1000 + length (codes "ok abc")))
        ⊎ ((3 < length (codes "ok abc")) × (d'.buf ≤ 1003) × (1003 ≤ d'.buf + 1)))
vsnprintf-take_example =
    vsnprintf-take 0 3 greeting greeted (codes "ok abc") fresh sent_greeting (omega arith)

-- "%e" with 7 needs a nested call.
sent_error : sent 2 (codes "%e") (arg (word 7) nil) ≡ some (codes "no free space on disk")
unfolding sent sent_from step_of next_spec
sent_error = refl

vsnprintf-Ended_example :
    (d' : Dest) × (vsnprintf 2 1010 (codes "%e") (arg (word 7) nil) fresh ≡ some d')
    × Ended 1000 1010 1000 (λ i. 170) (codes "no free space on disk") d'
vsnprintf-Ended_example =
    vsnprintf-Ended 2 1000 1010 (codes "%e") (arg (word 7) nil) (codes "no free space on disk")
      fresh sent_error (omega arith) (omega arith) (omega arith)

sent_warning :
    sent_all 1 (warn_calls (some (codes "sh")) greeting greeted)
    ≡ some (codes "sh: warning: ok abc\n")
unfolding sent_all sent sent_from warn_calls next_spec step_of
sent_warning = refl

warn_calls-Ended_example :
    (d' : Dest) × (append_all 1 1256 (warn_calls (some (codes "sh")) greeting greeted) fresh
      ≡ some d')
    × Ended 1000 1256 1000 (λ i. 170) (codes "sh: warning: ok abc\n") d'
warn_calls-Ended_example =
    warn_calls-Ended 1 1000 (some (codes "sh")) greeting greeted (codes "sh: warning: ok abc\n")
      fresh sent_warning refl
