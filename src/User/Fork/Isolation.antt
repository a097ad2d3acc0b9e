-- ===== src/User/Fork/Isolation.antt =====
-- A parent and its child after `fork` of user/fork.c, in any order of steps.
use demo2s.Base.{
  ℕ, zero, suc, ◌+◌, ◌≡◌, ◌≢◌, ◌⊎◌, inl, inr, refl, sym, ◌∙◌, Bool, true, false, not, ◌&&◌, ◌||◌,
  some, if◌then◌else◌, update, update_other, arith, Bool-cases,
}
use demo2s.User.Fork.{
  dup_from, fork_pages, stack_top_page, Pte, Side, parent, child, World, set_page, own_entry,
  cow_entry, read_only_entry, library_entry, dup_entry, duppage, pgfault, store_word, write_entry,
}
use demo2s.User.Fork.Private.{IsPrivate, duppage-IsPrivate, write_entry-IsPrivate, same_world}

-- `duppage` of a page, as often as one likes, or a write by either environment.
pub data Step (w : World) : World → Type 0 where
  dup : (pn : ℕ) → Step w (duppage pn w)
  write :
      (x : Side) (pn i n : ℕ) (e : Pte) (w' : World)
      → w.pages x pn ≡ some e
      → write_entry x pn e i n w ≡ some w'
      → Step w w'

pub data Reach (w0 : World) : World → Type 0 where
  here : Reach w0 w0
  next : {w w' : World} → Reach w0 w → Step w w' → Reach w0 w'

Step-IsPrivate : {w w' : World} → IsPrivate w → Step w w' → IsPrivate w'
Step-IsPrivate {w} {w'} v (dup pn) = duppage-IsPrivate w pn v
Step-IsPrivate {w} {w'} v (write x pn i n e w'' h run) =
    write_entry-IsPrivate w w'' x pn i n e v run

Reach-IsPrivate : {w0 w : World} → IsPrivate w0 → Reach w0 w → IsPrivate w
Reach-IsPrivate v here = v
Reach-IsPrivate v (next r s) = Step-IsPrivate (Reach-IsPrivate v r) s

-- A page of memory and an entry are as they were.
kept_store : (f g i n : ℕ) (w : World) → f ≢ g → (store_word f i n w).frames g ≡ w.frames g
kept_store f g i n w ne = update_other w.frames f g (update (w.frames f) i n) ne

abbrev SamePage : World → World → Side → ℕ → Pte → Type 0
SamePage w w' y qn b = (w'.pages y qn ≡ some b) × (w'.frames b.frame ≡ w.frames b.frame)

other_side :
    (x y : Side) (pn qn : ℕ) (e : Pte) (w : World)
    → x ≢ y
    → (set_page x pn e w).pages y qn ≡ w.pages y qn
other_side parent parent pn qn e w ne = absurd (ne refl)
other_side parent child pn qn e w ne = refl
other_side child parent pn qn e w ne = refl
other_side child child pn qn e w ne = absurd (ne refl)

write_isolated :
    (w w' : World) (x y : Side) (pn qn i n : ℕ) (e b : Pte)
    → IsPrivate w
    → w.pages x pn ≡ some e
    → write_entry x pn e i n w ≡ some w'
    → x ≢ y
    → w.pages y qn ≡ some b
    → b.library ≡ false
    → SamePage w w' y qn b
unfolding write_entry pgfault
write_isolated w w' x y pn qn i n e b v h run ne g lib = elim (Bool-cases (e.user && e.writable)) [
  | inl yes_w ↦
      (let go : write_entry x pn e i n w ≡ some (store_word e.frame i n w) =
          rw (write_entry, yes_w) refl in
        let eq : w' ≡ store_word e.frame i n w = same_world (sym run ∙ go) in
        let writes : e.writable ≡ true = ground (arith, yes_w) in
        let differ : e.frame ≢ b.frame = λ same. elim (v.apart x y pn qn e b h g same) [
          | inl (xy, pq) ↦ ne xy
          | inr (inl (le, lb)) ↦ absurd (ground (arith, lb, lib))
          | inr (inr (pq, we, wb)) ↦ absurd (ground (arith, we, writes))
        ] in
        rw eq (g, kept_store e.frame b.frame i n w differ))
  | inr no_w ↦ elim (Bool-cases e.cow) [
    | inl c ↦
        (let go : write_entry x pn e i n w ≡ some (store_word w.next i n (pgfault x pn e w)) =
            rw (write_entry, no_w, c) refl in
          let eq : w' ≡ store_word w.next i n (pgfault x pn e w) = same_world (sym run ∙ go) in
          let lt = v.used y qn b g in
          let differ : w.next ≢ b.frame = λ same. omega (arith, same, lt) in
          rw eq (
            other_side x y pn qn (own_entry w.next) w ne ∙ g,
            kept_store w.next b.frame i n (pgfault x pn e w) differ
                ∙ update_other w.frames w.next b.frame (w.frames e.frame) differ,
          ))
    | inr c ↦ absurd (ground (arith, run, no_w, c))
  ]
]

-- From an address space in which no two pages are the same memory, but library pages, and a child without any such
-- page: in whatever order pages are copied by `duppage` and the two environments write, with the
-- faults of these writes handled, a write by one changes no page of the other that is not a library page.
pub write_unseen :
    {w0 w : World} (w' : World) (x y : Side) (pn qn i n : ℕ) (e b : Pte)
    → IsPrivate w0
    → Reach w0 w
    → w.pages x pn ≡ some e
    → write_entry x pn e i n w ≡ some w'
    → x ≢ y
    → w.pages y qn ≡ some b
    → b.library ≡ false
    → (w'.pages y qn ≡ some b) × (w'.frames b.frame ≡ w.frames b.frame)
write_unseen {w0} {w} w' x y pn qn i n e b v r h run ne g lib =
    write_isolated w w' x y pn qn i n e b (Reach-IsPrivate v r) h run ne g lib

-- A page of the child that is the same memory as one of the parent.
abbrev pub Shared : World → World → ℕ → Pte → Type 0
Shared w w' pn e =
    (a : Pte) × (b : Pte) × (w'.pages parent pn ≡ some a)
    × (w'.pages child pn ≡ some b)
    × (a.frame ≡ e.frame)
    × (b.frame ≡ e.frame)
    × ((b.library ≡ true) ⊎ ((a.writable ≡ false) × (b.writable ≡ false)))
    × (w'.frames ≡ w.frames)

branch-Shared :
    (c : Bool) (w u u' : World) (pn : ℕ) (e : Pte)
    → (c ≡ true → Shared w u pn e)
    → (c ≡ false → Shared w u' pn e)
    → Shared w (if c then u else u') pn e
branch-Shared true w u u' pn e su su' = su refl
branch-Shared false w u u' pn e su su' = su' refl

here_set : (x : Side) (pn : ℕ) (e : Pte) (w : World) → (set_page x pn e w).pages x pn ≡ some e
here_set parent pn e w = ground arith
here_set child pn e w = ground arith

dup_step :
    (w : World) (pn : ℕ) (e : Pte) → w.pages parent pn ≡ some e → duppage pn w ≡ dup_entry pn e w
unfolding duppage
dup_step w pn e h = rw (duppage, h) refl

-- `duppage` of a page that the parent may use makes it the same memory in the child, where it is either a
-- library page or one that neither may write, and changes no memory.
pub duppage_lem :
    (w : World) (pn : ℕ) (e : Pte)
    → w.pages parent pn ≡ some e
    → e.user ≡ true
    → (a : Pte) × (b : Pte) × ((duppage pn w).pages parent pn ≡ some a)
      × ((duppage pn w).pages child pn ≡ some b)
      × (a.frame ≡ e.frame)
      × (b.frame ≡ e.frame)
      × ((b.library ≡ true) ⊎ ((a.writable ≡ false) × (b.writable ≡ false)))
      × ((duppage pn w).frames ≡ w.frames)
unfolding dup_entry
duppage_lem w pn e h user =
    let cow = set_page child pn (cow_entry e.frame) (set_page parent pn (cow_entry e.frame) w) in
    let all : Shared w (dup_entry pn e w) pn e =
      branch-Shared (not e.user) w w _ pn e (λ f. absurd (ground (arith, f, user)))
        λ _.
          branch-Shared e.library w (set_page child pn (library_entry e.frame) w) _ pn e
            (λ _. (
              e,
              library_entry e.frame,
              h,
              here_set child pn (library_entry e.frame) w,
              refl,
              refl,
              inl refl,
              refl,
            ))
            λ _.
              branch-Shared (e.writable || e.cow) w cow
                (set_page child pn (read_only_entry e.frame) w) pn e
                (λ _. (
                  cow_entry e.frame,
                  cow_entry e.frame,
                  here_set parent pn (cow_entry e.frame) w,
                  here_set child pn (cow_entry e.frame) (set_page parent pn (cow_entry e.frame) w),
                  refl,
                  refl,
                  inr (refl, refl),
                  refl,
                ))
                λ ro. (
                  e,
                  read_only_entry e.frame,
                  h,
                  here_set child pn (read_only_entry e.frame) w,
                  refl,
                  refl,
                  inr (ground (arith, ro), refl),
                  refl,
                ) in
    rw (dup_step w pn e h) all

-- A run that goes on with the loop of `fork`.
dup_from-Reach : (left pn : ℕ) (w0 w : World) → Reach w0 w → Reach w0 (dup_from left pn w)
unfolding dup_from
dup_from-Reach zero pn w0 w r = r
dup_from-Reach (suc left) pn w0 w r =
    dup_from-Reach left (pn + 1) w0 (duppage pn w) (next r (dup pn))

-- `fork` of an address space in which no two pages are the same memory, but library pages, leaves memory
-- private.
pub fork_pages-IsPrivate : (w : World) → IsPrivate w → IsPrivate (fork_pages w)
unfolding fork_pages
fork_pages-IsPrivate w v = Reach-IsPrivate v (dup_from-Reach stack_top_page 0 w w here)
