-- ===== src/User/Spawn/Frame.antt =====
-- What `init_stack` of user/spawn.c leaves in the child's stack page.
use demo2s.Base.{
  ℕ, ◌+◌, ◌-◌, ◌*◌, ◌/◌, ◌^◌, ◌≤◌, ◌<◌, ◌≡◌, ◌⊎◌, refl, sym, ap, ◌∙◌, subst, none, some, List,
  false, ltb_of_le, ltb_of_lt, u32, length, Ret, ok, err, no_mem, arith,
}
use demo2s.Kern.Mmu.{by2pg, ustacktop}
use demo2s.User.Str.{Bytes, bzero}
use demo2s.User.Spawn.{
  tmppage, tmppagetop, load_word, store_word, count_args, copy_args, Parent, fill_stack,
  store_frame, args_at, child_args, round4, init_stack, Answers, finish_stack,
}
use demo2s.User.Spawn.Words.{store_word_kept, load_word-store_word, load_word-same, bzero_kept}
use demo2s.User.Spawn.Stack.{
  total, Given, HasArgs, Placed, Given-same, as_many, count_args_lem, copy_args_lem, args-moved,
}

-- The three words around the array
frame_kept :
    (m : Bytes) (tot argc a i : ℕ)
    → args_at tot argc ≡ a
    → 8 ≤ a
    → ((a ≤ i) × (i < a + 4 * argc)) ⊎ (a + 4 * argc + 4 ≤ i) ⊎ (i + 8 < a)
    → store_frame m tot argc i ≡ m i
frame_kept m tot argc a i e lo out = rw e (
    store_word_kept (store_word (store_word m (a + 4 * argc) 0) (a - 4) (child_args tot argc))
      (a - 8) argc i (omega (arith, out, lo))
    ∙ store_word_kept (store_word m (a + 4 * argc) 0) (a - 4) (child_args tot argc) i
        (omega (arith, out, lo))
    ∙ store_word_kept m (a + 4 * argc) 0 i (omega (arith, out, lo)))

frame_null :
    (m : Bytes) (tot argc a : ℕ)
    → args_at tot argc ≡ a
    → 8 ≤ a
    → load_word (store_frame m tot argc) (a + 4 * argc) ≡ 0
frame_null m tot argc a e lo =
    let m1 = store_word m (a + 4 * argc) 0 in
    let m2 = store_word m1 (a - 4) (child_args tot argc) in
    rw e (
      load_word-same m1 (store_word m2 (a - 8) argc) (a + 4 * argc) (a + 4 * argc) (λ i lt.
        store_word_kept m2 (a - 8) argc (a + 4 * argc + i) (omega (arith, lo))
        ∙ store_word_kept m1 (a - 4) (child_args tot argc) (a + 4 * argc + i) (omega (arith, lo)))
      ∙ load_word-store_word m (a + 4 * argc) 0 (omega arith))

frame_argv :
    (m : Bytes) (tot argc a : ℕ)
    → args_at tot argc ≡ a
    → 8 ≤ a
    → load_word (store_frame m tot argc) (a - 4) ≡ child_args tot argc
frame_argv m tot argc a e lo =
    let m1 = store_word m (a + 4 * argc) 0 in
    let m2 = store_word m1 (a - 4) (child_args tot argc) in
    rw e (
      load_word-same m2 (store_word m2 (a - 8) argc) (a - 4) (a - 4)
        (λ i lt. store_word_kept m2 (a - 8) argc (a - 4 + i) (omega (arith, lo)))
      ∙ load_word-store_word m1 (a - 4) (child_args tot argc) (omega arith))

frame_argc :
    (m : Bytes) (tot argc a : ℕ)
    → args_at tot argc ≡ a
    → argc < 2 ^ 32
    → load_word (store_frame m tot argc) (a - 8) ≡ argc
frame_argc m tot argc a e lt = rw e (load_word-store_word _ (a - 8) argc lt)

-- The answers when all three system calls succeed
abbrev pub granted : Answers
granted = record { alloc = none; map_page = none; unmap = none; unmap_error = none }

-- The child's stack page, for the arguments `css` and the stack pointer `esp`
pub record Started (css : List (List ℕ)) (page : Bytes) (esp : ℕ) : Type 0 where
  pub in_page : ustacktop - by2pg ≤ esp
  pub argc : load_word page esp ≡ length css
  pub argv : load_word page (esp + 4) ≡ esp + 8
  pub args : HasArgs page (esp + 8) css

frame-Started :
    (css : List (List ℕ)) (m page : Bytes) (tot a low : ℕ)
    → args_at tot (length css) ≡ a
    → child_args tot (length css) ≡ a + (ustacktop - tmppagetop)
    → tmppage + 8 ≤ a
    → a + 4 * length css + 4 ≤ low
    → low ≤ tmppagetop
    → Placed low m a css
    → ((i : ℕ) → page (i + (ustacktop - tmppagetop)) ≡ store_frame m tot (length css) i)
    → Started css page (a + (ustacktop - tmppagetop) - 8)
frame-Started css m page tot a low ea ec lo hi top placed view =
    let argc = length css in
    let off = ustacktop - tmppagetop in
    let f = store_frame m tot argc in
    let word : (b c : ℕ) → c + off ≡ b → load_word page b ≡ load_word f c = λ b c e.
      load_word-same f page c b
        (λ i lt. let e' : b + i ≡ c + i + off = omega (arith, e) in ap page e' ∙ view (c + i)) in
    let e8 : a + off - 8 + 8 ≡ a + off = omega (arith, lo) in
    record {
      in_page = omega (arith, lo);
      argc =
          word (a + off - 8) (a - 8) (omega (arith, lo))
          ∙ frame_argc m tot argc a ea (omega (arith, hi, top));
      argv =
          word (a + off - 8 + 4) (a - 4) (omega (arith, lo))
          ∙ frame_argv m tot argc a ea (omega (arith, lo))
          ∙ ec
          ∙ sym e8;
      args =
          subst (λ x. HasArgs page x css) (sym e8)
            (args-moved css m page low a placed
              (λ i out.
                view i ∙ frame_kept m tot argc a i ea (omega (arith, lo)) (omega (arith, out, hi)))
              (word (a + 4 * argc + off) (a + 4 * argc) (omega arith)
                ∙ frame_null m tot argc a ea (omega (arith, lo))));
    }

-- The system calls succeed.
finish_granted :
    (esp : ℕ) (s : Parent)
    → finish_stack granted esp s
      ≡ (ok esp, record s { tmp = false; stack = some (λ i. s.mem (i + tmppagetop - ustacktop)) })
finish_granted esp s = refl

fill_run :
    (room : ℕ) (argv : List ℕ) (tot strings a : ℕ) (s : Parent) (m' : Bytes)
    → u32 (tmppagetop + 2 ^ 32 - tot) ≡ strings
    → args_at tot (length argv) ≡ a
    → copy_args room (bzero by2pg s.mem tmppage) strings a argv ≡ some m'
    → fill_stack granted room argv tot s
      ≡ some (
        ok (child_args tot (length argv) - 8),
        record {
          mem = store_frame m' tot (length argv);
          tmp = false;
          stack = some (λ i. store_frame m' tot (length argv) (i + tmppagetop - ustacktop));
        },
      )
unfolding fill_stack
fill_run room argv tot strings a s m' es ea run =
    let m = bzero by2pg s.mem tmppage in
    let run' : copy_args room m (u32 (tmppagetop + 2 ^ 32 - tot)) (args_at tot (length argv)) argv
        ≡ some m' =
      ap (λ x. copy_args room m x (args_at tot (length argv)) argv) es
      ∙ ap (λ x. copy_args room m strings x argv) ea
      ∙ run in
    rw (fill_stack, run') refl

abbrev after_fill : Bytes → ℕ → ℕ → Ret ℕ × Parent
after_fill m tot argc = (
  ok (child_args tot argc - 8),
  record {
    mem = store_frame m tot argc;
    tmp = false;
    stack = some (λ i. store_frame m tot argc (i + tmppagetop - ustacktop));
  },
)

init_run :
    (r : Answers) (room : ℕ) (argv : List ℕ) (tot : ℕ) (s : Parent)
    → count_args room s.mem argv 0 ≡ some tot
    → r.alloc ≡ none
    → u32 (round4 tot + 4 * (length argv + 3)) ≤ by2pg
    → init_stack r room argv s ≡ fill_stack r room argv tot s
unfolding init_stack
init_run r room argv tot s e a le =
    let g = ltb_of_le by2pg (u32 (round4 tot + 4 * (length argv + 3))) le in
    rw (init_stack, e, g, a) refl

-- `init_stack` up to the frame
init_filled :
    (room : ℕ) (argv : List ℕ) (css : List (List ℕ)) (s : Parent)
    → Given room s.mem argv css
    → (total css + 3) / 4 * 4 + 4 * (length css + 3) ≤ by2pg
    → (a : ℕ) × (m' : Bytes) × (args_at (total css) (length css) ≡ a)
      × (a ≡ tmppagetop - (total css + 3) / 4 * 4 - 4 * (length css + 1))
      × (init_stack granted room argv s ≡ some (after_fill m' (total css) (length css)))
      × Placed (tmppagetop - total css) m' a css
      × ((i : ℕ) → (i < tmppage) ⊎ (tmppagetop ≤ i) → m' i ≡ s.mem i)
init_filled room argv css s g fits =
    let tot = total css in
    let n = as_many room argv css s.mem g in
    let low = tmppagetop - tot in
    let a = tmppagetop - (tot + 3) / 4 * 4 - 4 * (length css + 1) in
    let m = bzero by2pg s.mem tmppage in
    let same : (i : ℕ) → (i < tmppage) ⊎ (tmppagetop ≤ i) → m i ≡ s.mem i =
      λ i out. bzero_kept by2pg tmppage i s.mem (omega (arith, out)) in
    let es : u32 (tmppagetop + 2 ^ 32 - tot) ≡ low = omega (arith, fits) in
    let ea : args_at tot (length argv) ≡ a = omega (arith, fits, n) in
    let zero_tot : 0 + tot ≡ tot = omega arith in
    let count = count_args_lem room argv css s.mem 0 g (omega (arith, fits)) in
    let copied =
      copy_args_lem room argv css m low low a (Given-same room argv css s.mem m same g)
        (omega arith) (omega (arith, fits)) (omega (arith, fits)) (omega (arith, fits)) in
    (
      a,
      copied.0,
      omega (arith, fits),
      refl,
      init_run granted room argv tot s (count ∙ ap (λ x. some x) zero_tot) refl
            (omega (arith, fits, n))
          ∙ fill_run room argv tot low a s copied.0 es ea copied.1
          ∙ ap (λ c. some (after_fill copied.0 tot c)) n,
      copied.2,
      λ i out. copied.3 i (omega (arith, out, fits)) ∙ same i out,
    )

-- When the system calls succeed and the strings with their NULs, rounded up to words, three words and one
-- word for each argument fit in a page, `init_stack` succeeds. The child's stack page then has, at the
-- stack pointer returned, the number of arguments and the address of an array, which follows and is that
-- of pointers to the arguments' strings and a null pointer, all at the child's addresses. TMPPAGE is no
-- longer mapped, and the caller's memory has not changed elsewhere.
pub init_stack-Started :
    (room : ℕ) (argv : List ℕ) (css : List (List ℕ)) (s : Parent)
    → Given room s.mem argv css
    → (total css + 3) / 4 * 4 + 4 * (length css + 3) ≤ by2pg
    → (esp : ℕ) × (page : Bytes) × (s' : Parent) × (init_stack granted room argv s
        ≡ some (ok esp, s'))
      × (s'.tmp ≡ false)
      × (s'.stack ≡ some page)
      × Started css page esp
      × ((i : ℕ) → (i < tmppage) ⊎ (tmppagetop ≤ i) → s'.mem i ≡ s.mem i)
init_stack-Started room argv css s g fits = from (init_filled room argv css s g fits)
  where
    -- What is left to show speaks of the array's address only.
    from :
        ((a : ℕ) × (m' : Bytes) × (args_at (total css) (length css) ≡ a)
          × (a ≡ tmppagetop - (total css + 3) / 4 * 4 - 4 * (length css + 1))
          × (init_stack granted room argv s ≡ some (after_fill m' (total css) (length css)))
          × Placed (tmppagetop - total css) m' a css
          × ((i : ℕ) → (i < tmppage) ⊎ (tmppagetop ≤ i) → m' i ≡ s.mem i))
        → (esp : ℕ) × (page : Bytes) × (s' : Parent) × (init_stack granted room argv s
            ≡ some (ok esp, s'))
          × (s'.tmp ≡ false)
          × (s'.stack ≡ some page)
          × Started css page esp
          × ((i : ℕ) → (i < tmppage) ⊎ (tmppagetop ≤ i) → s'.mem i ≡ s.mem i)
    from (a, m', ea, at_a, run, placed, kept) =
        let tot = total css in
        let argc = length css in
        let ec : child_args tot argc ≡ a + (ustacktop - tmppagetop) = omega (arith, fits, at_a) in
        let f = store_frame m' tot argc in
        let page : Bytes = λ i. f (i + tmppagetop - ustacktop) in
        (
          child_args tot argc - 8,
          page,
          record { mem = f; tmp = false; stack = some page },
          run,
          refl,
          refl,
          subst (λ c. Started css page (c - 8)) (sym ec)
              (frame-Started css m' page tot a (tmppagetop - tot) ea ec (omega (arith, fits, at_a))
                (omega (arith, fits, at_a)) (omega arith) placed
                (λ i.
                  let e : i + (ustacktop - tmppagetop) + tmppagetop - ustacktop ≡ i = omega arith in
                  ap f e)),
          λ i out.
              frame_kept m' tot argc a i ea (omega (arith, fits, at_a))
                (omega (arith, out, fits, at_a))
              ∙ kept i out,
        )

-- When they do not fit, it fails with no_mem and changes nothing, whatever the system calls would answer.
pub init_stack-no_mem :
    (r : Answers) (room : ℕ) (argv : List ℕ) (css : List (List ℕ)) (s : Parent)
    → Given room s.mem argv css
    → by2pg < (total css + 3) / 4 * 4 + 4 * (length css + 3)
    → total css + 4 * length css + 16 < 2 ^ 32
    → init_stack r room argv s ≡ some (err no_mem, s)
unfolding init_stack
init_stack-no_mem r room argv css s g over small =
    let n = as_many room argv css s.mem g in
    let zero_tot : 0 + total css ≡ total css = omega arith in
    let count =
      count_args_lem room argv css s.mem 0 g (omega (arith, small)) ∙ ap (λ x. some x) zero_tot in
    let lt =
      ltb_of_lt by2pg (u32 (round4 (total css) + 4 * (length argv + 3)))
        (omega (arith, over, small, n)) in
    rw (init_stack, count, lt) refl
