-- ===== src/User/Tests/Programs.antt =====
-- Programs that are started, at a concrete stack and header.
use demo2s.Base.{
  ℕ, ◌≤◌, ◌<◌, ◌≡◌, ◌⊎◌, refl, Option, none, some, [], ◌∷◌, true, false, done, if◌then◌else◌,
  update, member, Error, ok, no_mem, arith,
}
use demo2s.User.Str.{Bytes}
use demo2s.User.Str.Laws.{HasString}
use demo2s.User.Spawn.{Parent, tmppage, tmppagetop, init_stack}
use demo2s.User.Spawn.Stack.{Given}
use demo2s.User.Spawn.Frame.{granted, Started, init_stack-Started}
use demo2s.User.Spawn.Load.{Aout, Load, Content, inherited, spawn}
use demo2s.User.Spawn.Load.Segments.{Image, spawn-Image}
use demo2s.User.Spawn.Load.Failure.{Spares, spawn-Spares}

-- "hi" at 100 and "a" at 9000
abbrev words : Bytes
words = update (update (update (λ i. 0) 100 104) 101 105) 9000 97

abbrev caller : Parent
caller = record { mem = words; tmp = false; stack = none }

given : Given 10 words (100 ∷ 9000 ∷ []) ((104 ∷ 105 ∷ []) ∷ (97 ∷ []) ∷ [])
unfolding HasString
given = omega arith

init_stack-Started_example :
    (esp : ℕ) × (page : Bytes) × (s' : Parent) × (init_stack granted 10 (100 ∷ 9000 ∷ []) caller
      ≡ some (ok esp, s'))
    × (s'.tmp ≡ false)
    × (s'.stack ≡ some page)
    × Started ((104 ∷ 105 ∷ []) ∷ (97 ∷ []) ∷ []) page esp
    × ((i : ℕ) → (i < tmppage) ⊎ (tmppagetop ≤ i) → s'.mem i ≡ words i)
init_stack-Started_example =
    init_stack-Started 10 (100 ∷ 9000 ∷ []) ((104 ∷ 105 ∷ []) ∷ (97 ∷ []) ∷ []) caller given
      (omega arith)

-- Two pages of text, one and a half of data, and a cleared page; the caller shares one library page.
abbrev header : Aout
header = record { a_text = 8192; a_data = 6000; a_bss = 10; a_entry = 0x800020 }

abbrev before_load : Load
before_load = record {
  calls = 0;
  child = λ x. none;
  offset = 0;
  tmp = false;
  has_child = false;
  has_frame = false;
  closed = false;
  runnable = false;
}

spawn-Image_example :
    (s' : Load) × (image : ℕ → Option Content) × (spawn
        (λ k. none)
        true
        header
        15000
        (0xd0000000 ∷ [])
        before_load
      ≡ done (ok tt) s')
    × Image header image
    × ((x : ℕ) → s'.child x ≡ (if member x (0xd0000000 ∷ []) then some inherited else image x))
    × (s'.closed ≡ true)
    × (s'.runnable ≡ true)
spawn-Image_example =
    spawn-Image header 15000 (0xd0000000 ∷ []) before_load (λ x. refl) refl (omega arith)
      (omega arith) (omega arith)

-- The sixth call fails.
abbrev fails_sixth : ℕ → Option Error
fails_sixth k = update (λ k. none) 5 (some no_mem) k

spawn-Spares_example : Spares false (spawn fails_sixth true header 15000 [] before_load)
spawn-Spares_example = spawn-Spares fails_sixth true header 15000 [] before_load
