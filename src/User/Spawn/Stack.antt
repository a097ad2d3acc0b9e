-- ===== src/User/Spawn/Stack.antt =====
-- How `init_stack` of user/spawn.c counts and copies the arguments.
use demo2s.Base.{
  ℕ, suc, ◌+◌, ◌-◌, ◌*◌, ◌^◌, ◌≤◌, ◌<◌, ◌≡◌, ◌⊎◌, inl, inr, refl, sym, ap, ◌∙◌, subst, some, List,
  [], ◌∷◌, u32, length, arith,
}
use demo2s.Kern.Mmu.{ustacktop}
use demo2s.User.Str.{Bytes, strlen, strcpy}
use demo2s.User.Str.Laws.{HasString, strlen_lem, strcpy_lem}
use demo2s.User.Spawn.{tmppage, tmppagetop, load_word, store_word, count_args, copy_args}
use demo2s.User.Spawn.Words.{store_word_kept, load_word-store_word, load_word-same, HasString-same}

-- The bytes of the strings with their NULs
abbrev pub total : List (List ℕ) → ℕ
total [] = 0
total (cs ∷ css) = length cs + 1 + total css

-- `argv` points at the strings, which are short enough to be read, and not in TMPPAGE.
abbrev pub Given : ℕ → Bytes → List ℕ → List (List ℕ) → Type 0
Given room m [] [] = Unit {0}
Given room m [] (cs ∷ css) = ⊥
Given room m (p ∷ argv) [] = ⊥
Given room m (p ∷ argv) (cs ∷ css) =
    HasString m p cs
    × (length cs < room)
    × ((p + length cs < tmppage) ⊎ (tmppagetop ≤ p))
    × Given room m argv css

-- Pointers from `a` on to the strings, and a null pointer, as a process sees them in its own memory.
abbrev pub HasArgs : Bytes → ℕ → List (List ℕ) → Type 0
HasArgs m a [] = load_word m a ≡ 0
HasArgs m a (cs ∷ css) = HasString m (load_word m a) cs × HasArgs m (a + 4) css

-- The same before the page is moved, with the strings from `low` on
pub Placed : ℕ → Bytes → ℕ → List (List ℕ) → Type 0
Placed low m a [] = Unit {0}
Placed low m a (cs ∷ css) =
    ((s : ℕ) × (low ≤ s)
      × (s + length cs < tmppagetop)
      × (load_word m a ≡ s + (ustacktop - tmppagetop))
      × HasString m s cs)
    × Placed low m (a + 4) css

pub Given-same :
    (room : ℕ) (argv : List ℕ) (css : List (List ℕ)) (m m' : Bytes)
    → ((i : ℕ) → (i < tmppage) ⊎ (tmppagetop ≤ i) → m' i ≡ m i)
    → Given room m argv css
    → Given room m' argv css
Given-same room [] [] m m' same g = tt
Given-same room [] (cs ∷ css) m m' same g = absurd g
Given-same room (p ∷ argv) [] m m' same g = absurd g
Given-same room (p ∷ argv) (cs ∷ css) m m' same (h, lt, apart, g) = (
  HasString-same cs m m' p p (λ i le. same (p + i) (omega (arith, apart, le))) h,
  lt,
  apart,
  Given-same room argv css m m' same g,
)

pub as_many :
    (room : ℕ) (argv : List ℕ) (css : List (List ℕ)) (m : Bytes)
    → Given room m argv css
    → length argv ≡ length css
as_many room [] [] m g = refl
as_many room [] (cs ∷ css) m g = absurd g
as_many room (p ∷ argv) [] m g = absurd g
as_many room (p ∷ argv) (cs ∷ css) m (h, lt, apart, g) = omega (arith, as_many room argv css m g)

pub count_args_lem :
    (room : ℕ) (argv : List ℕ) (css : List (List ℕ)) (m : Bytes) (tot : ℕ)
    → Given room m argv css
    → tot + total css < 2 ^ 32
    → count_args room m argv tot ≡ some (tot + total css)
unfolding count_args
count_args_lem room [] [] m tot g lt = let z : tot + 0 ≡ tot = omega arith in rw z refl
count_args_lem room [] (cs ∷ css) m tot g lt = absurd g
count_args_lem room (p ∷ argv) [] m tot g lt = absurd g
count_args_lem room (p ∷ argv) (cs ∷ css) m tot (h, short, apart, g) lt =
    let run = strlen_lem cs room p m h short in
    let t : u32 (tot + length cs + 1) ≡ tot + length cs + 1 = omega (arith, lt) in
    let e : tot + (length cs + 1 + total css) ≡ tot + length cs + 1 + total css = omega arith in
    rw (count_args, run, t, e)
      (count_args_lem room argv css m (tot + length cs + 1) g (omega (arith, lt)))

no_args : (room : ℕ) (m : Bytes) (s a : ℕ) → copy_args room m s a [] ≡ some m
unfolding copy_args
no_args room m s a = refl

-- One turn of the loop
copy_turn :
    (room : ℕ) (m m1 : Bytes) (s a p n : ℕ) (argv : List ℕ)
    → strcpy room m s p ≡ some m1
    → strlen room (store_word m1 a (u32 (s + (ustacktop - tmppagetop)))) p ≡ some n
    → copy_args room m s a (p ∷ argv)
      ≡ copy_args room
          (store_word m1 a (u32 (s + (ustacktop - tmppagetop))))
          (u32 (s + n + 1))
          (a + 4)
          argv
unfolding copy_args
copy_turn room m m1 s a p n argv c l = rw (copy_args, c, l) refl

copy_step :
    (room : ℕ) (m m1 : Bytes) (s a p n w after : ℕ) (argv : List ℕ)
    → u32 (s + (ustacktop - tmppagetop)) ≡ w
    → u32 (s + n + 1) ≡ after
    → strcpy room m s p ≡ some m1
    → strlen room (store_word m1 a w) p ≡ some n
    → copy_args room m s a (p ∷ argv) ≡ copy_args room (store_word m1 a w) after (a + 4) argv
copy_step room m m1 s a p n w after argv eu en c l =
    copy_turn room m m1 s a p n argv c
      (subst (λ x. strlen room (store_word m1 a x) p ≡ some n) (sym eu) l)
    ∙ ap (λ x. copy_args room (store_word m1 a x) (u32 (s + n + 1)) (a + 4) argv) eu
    ∙ ap (λ x. copy_args room (store_word m1 a w) x (a + 4) argv) en

pub copy_args_lem :
    (room : ℕ) (argv : List ℕ) (css : List (List ℕ)) (m : Bytes) (low s a : ℕ)
    → Given room m argv css
    → low ≤ s
    → tmppage ≤ a
    → a + 4 * length css ≤ s
    → s + total css ≡ tmppagetop
    → (m' : Bytes) × (copy_args room m s a argv ≡ some m')
      × Placed low m' a css
      × ((i : ℕ) → (i < a) ⊎ ((a + 4 * length css ≤ i) × (i < s)) ⊎ (tmppagetop ≤ i) → m' i ≡ m i)
unfolding Placed
copy_args_lem room [] [] m low s a g ls lo fits end = (m, no_args room m s a, tt, λ i out. refl)
copy_args_lem room [] (cs ∷ css) m low s a g ls lo fits end = absurd g
copy_args_lem room (p ∷ argv) [] m low s a g ls lo fits end = absurd g
copy_args_lem room (p ∷ argv) (cs ∷ css) m low s a (h, short, apart, g) ls lo fits end =
    let (m1, run, there, kept) =
      strcpy_lem cs room s p m h (omega (arith, apart, lo, fits, end)) short in
    let w = s + (ustacktop - tmppagetop) in
    let u : u32 w ≡ w = omega (arith, end) in
    let m2 = store_word m1 a w in
    let same : (i : ℕ) → (i < tmppage) ⊎ (tmppagetop ≤ i) → m2 i ≡ m i = λ i out.
      store_word_kept m1 a w i (omega (arith, out, lo, fits, end))
      ∙ kept i (omega (arith, out, lo, fits, end)) in
    let g2 = Given-same room (p ∷ argv) (cs ∷ css) m m2 same (h, short, apart, g) in
    let n : u32 (s + length cs + 1) ≡ s + length cs + 1 = omega (arith, end) in
    let (m', rest, placed, kept') =
      copy_args_lem room argv css m2 low (s + length cs + 1) (a + 4) g2.3 (omega (arith, ls))
        (omega (arith, lo)) (omega (arith, fits)) (omega (arith, end)) in
    (
      m',
      copy_step room m m1 s a p (length cs) w (s + length cs + 1) argv u n run
            (strlen_lem cs room p m2 g2.0 short)
          ∙ rest,
      (
        (
          s,
          ls,
          omega (arith, end),
          load_word-same m2 m' a a (λ i lt. kept' (a + i) (omega (arith, lt)))
              ∙ load_word-store_word m1 a w (omega (arith, end)),
          HasString-same cs m1 m' s s
              (λ i lt.
                kept' (s + i) (omega (arith, lt, fits))
                ∙ store_word_kept m1 a w (s + i) (omega (arith, lt, fits)))
              there,
        ),
        placed,
      ),
      λ i out.
          kept' i (omega (arith, out, fits))
          ∙ store_word_kept m1 a w i (omega (arith, out))
          ∙ kept i (omega (arith, out, end)),
    )

-- The page at the child's addresses
pub args-moved :
    (css : List (List ℕ)) (m page : Bytes) (low a : ℕ)
    → Placed low m a css
    → ((i : ℕ)
        → ((a ≤ i) × (i < a + 4 * length css)) ⊎ ((low ≤ i) × (i < tmppagetop))
        → page (i + (ustacktop - tmppagetop)) ≡ m i)
    → load_word page (a + 4 * length css + (ustacktop - tmppagetop)) ≡ 0
    → HasArgs page (a + (ustacktop - tmppagetop)) css
unfolding Placed
args-moved [] m page low a placed same z =
    let e : a + 0 + (ustacktop - tmppagetop) ≡ a + (ustacktop - tmppagetop) = omega arith in
    subst (λ x. load_word page x ≡ 0) e z
args-moved (cs ∷ css) m page low a ((s, ls, hs, word, there), placed) same z =
    let off = ustacktop - tmppagetop in
    let w : load_word page (a + off) ≡ s + off =
      load_word-same m page a (a + off) (λ i lt.
        let e : a + i + off ≡ a + off + i = omega arith in
        sym (ap page e) ∙ same (a + i) (inl (omega arith, omega (arith, lt))))
      ∙ word in
    let e4 : a + 4 + off ≡ a + off + 4 = omega arith in
    let ez : a + 4 * suc (length css) + off ≡ a + 4 + 4 * length css + off = omega arith in
    (
      subst (λ x. HasString page x cs) (sym w)
          (HasString-same cs m page s (s + off)
            (λ i lt.
              let e : s + i + off ≡ s + off + i = omega arith in
              sym (ap page e) ∙ same (s + i) (inr (omega (arith, ls), omega (arith, lt, hs))))
            there),
      subst (λ x. HasArgs page x css) e4
          (args-moved css m page low (a + 4) placed (λ i out. same i (omega (arith, out)))
            (subst (λ x. load_word page x ≡ 0) ez z)),
    )
