-- ===== src/User/Spawn/Load/Segments.antt =====
-- The child that `spawn` of user/spawn.c makes when every call succeeds.
use demo2s.Base.{
  ℕ, zero, suc, ◌+◌, ◌-◌, ◌*◌, ◌/◌, ◌%◌, ◌^◌, ◌≤◌, ◌<◌, ◌≡◌, ◌⊎◌, ◌≢◌, inl, inr, sym, refl, ap, ◌∙◌,
  Option, none, some, List, [], ◌∷◌, true, false, not, ◌==◌, update, update_self, update_other,
  member, done, Error, ok, if◌then◌else◌, arith,
}
use demo2s.Kern.Mmu.{by2pg, utext}
use demo2s.User.File.{read_size, round_up}
use demo2s.User.Spawn.Load.{
  Aout, Content, text_of, data_of, zeros, inherited, Load, map_text, copy_data, clear_bss,
  initial_stack, stack_at, call_init_stack, share_library, text_end, data_end, bss_end, start_child,
  load_child, spawn,
}

abbrev pub granted : ℕ → Option Error
granted k = none

-- `n` pages from `va` on were mapped, each to its content, and no other; `offset` is that of the file, and
-- the file stays as open as it was.
record Mapped (n va : ℕ) (content : ℕ → Content) (s s' : Load) : Type 0 where
  there : (j : ℕ) → j < n → s'.child (va + by2pg * j) ≡ some (content j)
  others : (x : ℕ) → (x < va) ⊎ (va + by2pg * n ≤ x) → s'.child x ≡ s.child x

no_pages : (va : ℕ) (content : ℕ → Content) (s : Load) → Mapped 0 va content s s
no_pages va content s = record {
  there = λ j lt. absurd (omega (arith, lt));
  others = λ x out. refl;
}

-- A page, and then the others
page_first :
    (n va : ℕ) (first : Content) (rest content : ℕ → Content) (s s1 s' : Load)
    → content 0 ≡ first
    → ((j : ℕ) → content (suc j) ≡ rest j)
    → ((x : ℕ) → s1.child x ≡ update s.child va (some first) x)
    → Mapped n (va + by2pg) rest s1 s'
    → Mapped (suc n) va content s s'
page_first n va first rest content s s1 s' e0 es e m = record {
  there = there;
  others = λ x out.
      m.others x (omega (arith, out))
      ∙ e x
      ∙ update_other s.child va x (some first) (λ z. omega (arith, z, out));
}
  where
    there : (j : ℕ) → j < suc n → s'.child (va + by2pg * j) ≡ some (content j)
    there zero lt =
        let z : va + by2pg * 0 ≡ va = omega arith in
        rw (z, e0) (m.others va (omega arith) ∙ e va ∙ update_self s.child va (some first))
    there (suc j) lt =
        let z : va + by2pg * suc j ≡ va + by2pg + by2pg * j = omega arith in
        let k = es j in rw (z, k) (m.there j (omega (arith, lt)))

text_pages :
    (n va offset : ℕ) (s : Load)
    → (s' : Load) × (map_text granted n va offset s ≡ done (ok tt) s')
      × Mapped n va (λ j. text_of (offset + by2pg * j)) s s'
unfolding map_text
text_pages zero va offset s = (s, refl, no_pages va _ s)
text_pages (suc n) va offset s =
    let s1 = record s {
      calls = s.calls + 1 + 1;
      child = update s.child va (some (text_of offset));
    } in
    let (s', run, m) = text_pages n (va + by2pg) (offset + by2pg) s1 in
    (
      s',
      run,
      page_first n va (text_of offset) (λ j. text_of (offset + by2pg + by2pg * j))
          (λ j. text_of (offset + by2pg * j)) s s1 s' (ap text_of (omega arith))
          (λ j. ap text_of (omega arith)) (λ x. refl) m,
    )

full_read :
    (size offset : ℕ) → offset + by2pg ≤ size → size < 2 ^ 32 → read_size size by2pg offset ≡ by2pg
unfolding read_size
full_read size offset le lt = ground (arith, le, lt)

-- Each read but the last is of a whole page.
data_pages :
    (size n va offset : ℕ) (s : Load)
    → (0 < n → s.offset ≡ offset)
    → offset + by2pg * n < size + by2pg
    → size < 2 ^ 32
    → (s' : Load) × (copy_data granted size n va s ≡ done (ok tt) s')
      × Mapped n va (λ j. data_of (offset + by2pg * j)) s s'
unfolding copy_data
data_pages size zero va offset s o le lt = (s, refl, no_pages va _ s)
data_pages size (suc n) va offset s o le lt =
    let here = o (omega arith) in
    let s1 = record s {
      calls = s.calls + 1 + 1 + 1;
      tmp = true;
      offset = s.offset + read_size size by2pg s.offset;
      child = update s.child va (some (data_of s.offset));
    } in
    let after : 0 < n → s1.offset ≡ offset + by2pg = λ pos.
      let whole = full_read size s.offset (omega (arith, here, le, pos)) lt in
      omega (arith, here, whole) in
    let (s', run, m) =
      data_pages size n (va + by2pg) (offset + by2pg) s1 after (omega (arith, le)) lt in
    (
      s',
      run,
      page_first n va (data_of s.offset) (λ j. data_of (offset + by2pg + by2pg * j))
          (λ j. data_of (offset + by2pg * j)) s s1 s' (ap data_of (omega (arith, here)))
          (λ j. ap data_of (omega arith)) (λ x. refl) m,
    )

bss_pages :
    (n va : ℕ) (s : Load)
    → (s' : Load) × (clear_bss granted n va s ≡ done (ok tt) s') × Mapped n va (λ j. zeros) s s'
unfolding clear_bss
bss_pages zero va s = (s, refl, no_pages va _ s)
bss_pages (suc n) va s =
    let s1 = record s { calls = s.calls + 1; child = update s.child va (some zeros) } in
    let (s', run, m) = bss_pages n (va + by2pg) s1 in
    (
      s',
      run,
      page_first n va zeros (λ j. zeros) (λ j. zeros) s s1 s' refl (λ j. refl) (λ x. refl) m,
    )

-- The library pages are those of `libs`, and the state is otherwise as it was.
shared :
    (libs : List ℕ) (s : Load)
    → (s' : Load) × (share_library granted libs s ≡ done (ok tt) s')
      × (s'.closed ≡ s.closed)
      × (s'.has_frame ≡ s.has_frame)
      × ((x : ℕ) → s'.child x ≡ (if member x libs then some inherited else s.child x))
unfolding share_library
shared [] s = (s, refl, refl, refl, λ x. refl)
shared (va ∷ libs) s =
    let s1 = record s { calls = s.calls + 1; child = update s.child va (some inherited) } in
    let (s', run, c, f, m) = shared libs s1 in (s', run, c, f, λ x. ground (arith, m x))

-- The child of a header: the text from UTEXT on, the data and the cleared pages behind it, and the stack.
pub record Image (h : Aout) (child : ℕ → Option Content) : Type 0 where
  pub text : (j : ℕ) → by2pg * j < h.a_text → child (utext + by2pg * j) ≡ some (text_of (by2pg * j))
  pub bytes :
      (j : ℕ)
      → by2pg * j < h.a_data
      → child (text_end h + by2pg * j) ≡ some (data_of (h.a_text + by2pg * j))
  pub cleared : (j : ℕ) → by2pg * j < h.a_bss → child (data_end h + by2pg * j) ≡ some zeros
  pub stack : child stack_at ≡ some initial_stack
  pub nothing : (x : ℕ) → (x < utext) ⊎ (bss_end h ≤ x) → x ≢ stack_at → child x ≡ none

-- A segment of `len` bytes from a page boundary on ends at another, the first that leaves room for it.
segment_end :
    (beg len : ℕ)
    → beg % by2pg ≡ 0
    → beg + len + by2pg < 2 ^ 32
    → (round_up (beg + len) ≡ beg + by2pg * ((round_up (beg + len) - beg) / by2pg))
      × (len ≤ by2pg * ((round_up (beg + len) - beg) / by2pg))
      × (by2pg * ((round_up (beg + len) - beg) / by2pg) < len + by2pg)
      × (round_up (beg + len) % by2pg ≡ 0)
segment_end beg len e lt =
    (omega (arith, e, lt), omega (arith, e, lt), omega (arith, e, lt), omega arith)

image_of :
    (h : Aout) (s s1 s2 s3 s4 : Load) (nt nd nb : ℕ)
    → s.child stack_at ≡ some initial_stack
    → ((x : ℕ) → x ≢ stack_at → s.child x ≡ none)
    → bss_end h ≤ stack_at
    → text_end h ≡ utext + by2pg * nt
    → data_end h ≡ text_end h + by2pg * nd
    → bss_end h ≡ data_end h + by2pg * nb
    → (h.a_text ≤ by2pg * nt) × (h.a_data ≤ by2pg * nd) × (h.a_bss ≤ by2pg * nb)
    → Mapped nt utext (λ j. text_of (0 + by2pg * j)) s s1
    → ((x : ℕ) → s2.child x ≡ s1.child x)
    → Mapped nd (text_end h) (λ j. data_of (h.a_text + by2pg * j)) s2 s3
    → Mapped nb (data_end h) (λ j. zeros) s3 s4
    → Image h s4.child
image_of h s s1 s2 s3 s4 nt nd nb top empty high te de be (lt, ld, lb) m1 same m3 m4 = record {
  text = λ j lt'.
      let z : 0 + by2pg * j ≡ by2pg * j = omega arith in
      m4.others (utext + by2pg * j) (inl (omega (arith, te, de, lt, lt')))
      ∙ m3.others (utext + by2pg * j) (inl (omega (arith, te, lt, lt')))
      ∙ same (utext + by2pg * j)
      ∙ m1.there j (omega (arith, lt, lt'))
      ∙ ap (λ x. some (text_of x)) z;
  bytes = λ j lt'.
      m4.others (text_end h + by2pg * j) (inl (omega (arith, de, ld, lt')))
      ∙ m3.there j (omega (arith, ld, lt'));
  cleared = λ j lt'. m4.there j (omega (arith, lb, lt'));
  stack = outside stack_at (inr high) ∙ top;
  nothing = λ x out ne. outside x out ∙ empty x ne;
}
  where
    outside : (x : ℕ) → (x < utext) ⊎ (bss_end h ≤ x) → s4.child x ≡ s.child x
    outside x out =
        m4.others x (omega (arith, out, te, de, be))
        ∙ m3.others x (omega (arith, out, te, de, be))
        ∙ same x
        ∙ m1.others x (omega (arith, out, te, de, be))

load_run :
    (h : Aout) (size : ℕ) (s s1 s3 s4 : Load)
    → map_text granted ((text_end h - utext) / by2pg) utext 0 s ≡ done (ok tt) s1
    → copy_data granted size
        ((data_end h - text_end h) / by2pg)
        (text_end h)
        (record s1 { calls = s1.calls + 1; offset = h.a_text })
      ≡ done (ok tt) s3
    → clear_bss granted ((bss_end h - data_end h) / by2pg) (data_end h) s3 ≡ done (ok tt) s4
    → load_child granted h size s ≡ done (ok tt) (record s4 { calls = s4.calls + 1; closed = true })
unfolding load_child
load_run h size s s1 s3 s4 e1 e3 e4 = rw (load_child, e1, e3, e4) refl

loaded :
    (h : Aout) (size : ℕ) (s : Load)
    → s.child stack_at ≡ some initial_stack
    → ((x : ℕ) → x ≢ stack_at → s.child x ≡ none)
    → utext + h.a_text + h.a_data + h.a_bss + 3 * by2pg ≤ stack_at
    → h.a_text + h.a_data ≤ size
    → size < 2 ^ 32
    → (s' : Load) × (load_child granted h size s ≡ done (ok tt) s')
      × Image h s'.child
      × (s'.closed ≡ true)
unfolding load_child
loaded h size s top empty small le lt =
    let t = segment_end utext h.a_text (omega arith) (omega (arith, small)) in
    let d = segment_end (text_end h) h.a_data t.3 (omega (arith, small, t.0, t.2)) in
    let b = segment_end (data_end h) h.a_bss d.3 (omega (arith, small, t.0, t.2, d.0, d.2)) in
    let (s1, run1, m1) = text_pages ((text_end h - utext) / by2pg) utext 0 s in
    let s2 = record s1 { calls = s1.calls + 1; offset = h.a_text } in
    let (s3, run3, m3) =
      data_pages size ((data_end h - text_end h) / by2pg) (text_end h) h.a_text s2 (λ pos. refl)
        (omega (arith, d.2, le)) lt in
    let (s4, run4, m4) = bss_pages ((bss_end h - data_end h) / by2pg) (data_end h) s3 in
    (
      record s4 { calls = s4.calls + 1; closed = true },
      load_run h size s s1 s3 s4 run1 run3 run4,
      image_of h s s1 s2 s3 s4 _ _ _ top empty (omega (arith, small, t.0, t.2, d.0, d.2, b.0, b.2))
          t.0 d.0 b.0 (t.1, d.1, b.1) m1 (λ x. refl) m3 m4,
      refl,
    )

-- The child after `init_stack`
abbrev with_stack : Load → Load
with_stack s = record s {
  calls = s.calls + 1 + 1 + 1 + 1 + 1 + 1;
  has_child = true;
  tmp = false;
  child = update s.child stack_at (some initial_stack);
}

spawn_run :
    (h : Aout) (size : ℕ) (libs : List ℕ) (s s1 s3 : Load)
    → h.a_entry ≡ utext + 0x20
    → load_child granted h size (with_stack s) ≡ done (ok tt) s1
    → share_library granted libs (record s1 { calls = s1.calls + 1; has_frame = true })
      ≡ done (ok tt) s3
    → spawn granted true h size libs s
      ≡ done (ok tt) (record s3 { calls = s3.calls + 1; runnable = true })
unfolding spawn start_child call_init_stack
spawn_run h size libs s s1 s3 entry e1 e3 =
    let g : not (h.a_entry == utext + 0x20) ≡ false = ground (arith, entry) in
    rw (spawn, g, e1, e3) refl

-- When every call succeeds, the arguments fit in a page, the file has the text and data that its header
-- promises, and there is room for the segments below the stack, `spawn` of an executable makes a runnable
-- child and closes the file. At UTEXT the child has the text, shared and read-only, behind it copies of the data,
-- and behind them cleared pages, each page at its place, and below USTACKTOP the page of `init_stack`; it has
-- nothing else below UTEXT and behind the cleared pages. Only the library pages are instead those of the
-- caller.
pub spawn-Image :
    (h : Aout) (size : ℕ) (libs : List ℕ) (s : Load)
    → ((x : ℕ) → s.child x ≡ none)
    → h.a_entry ≡ utext + 0x20
    → utext + h.a_text + h.a_data + h.a_bss + 3 * by2pg ≤ stack_at
    → h.a_text + h.a_data ≤ size
    → size < 2 ^ 32
    → (s' : Load) × (image : ℕ → Option Content) × (spawn granted true h size libs s
        ≡ done (ok tt) s')
      × Image h image
      × ((x : ℕ) → s'.child x ≡ (if member x libs then some inherited else image x))
      × (s'.closed ≡ true)
      × (s'.runnable ≡ true)
unfolding spawn start_child
spawn-Image h size libs s empty entry small le lt =
    let s0 = with_stack s in
    let (s1, run1, image, closed) =
      loaded h size s0 (update_self s.child stack_at (some initial_stack))
        (λ x ne. update_other s.child stack_at x (some initial_stack) (λ z. ne (sym z)) ∙ empty x)
        small le lt in
    let s2 = record s1 { calls = s1.calls + 1; has_frame = true } in
    let (s3, run3, c, f, m) = shared libs s2 in
    (
      record s3 { calls = s3.calls + 1; runnable = true },
      s1.child,
      spawn_run h size libs s s1 s3 entry run1 run3,
      image,
      m,
      c ∙ closed,
      refl,
    )
