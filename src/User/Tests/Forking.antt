-- ===== src/User/Tests/Forking.antt =====
-- A parent with a page that it may write, and a child.
use demo2s.Base.{
  ℕ, ◌≡◌, inl, refl, sym, ◌∙◌, Bool, true, false, ◌==◌, if◌then◌else◌, none, some, arith,
}
use demo2s.User.Fork.{
  Pte, Side, parent, child, World, cow_entry, dup_entry, duppage, pgfault, store_word, write_entry,
}
use demo2s.User.Fork.Private.{IsPrivate}
use demo2s.User.Fork.Isolation.{dup, here, next, write_unseen}

abbrev own_page : Pte
own_page = record { frame = 3; user = true; writable = true; cow = false; library = false }

-- Page number 5 of the parent is page 3 of memory.
abbrev world0 : World
world0 = record {
  pages = λ x pn. elim x [ parent ↦ if pn == 5 then some own_page else none | child ↦ none ];
  frames = λ f i. f;
  next = 10;
}

one_page :
    (c : Bool) (a : Pte)
    → (if c then some own_page else none) ≡ some a
    → (c ≡ true) × (a ≡ own_page)
one_page true a h = (let eq : a ≡ own_page = cc in (refl, eq))
one_page false a h = absurd (ground (arith, h))

only_page :
    (x : Side) (pn : ℕ) (a : Pte)
    → world0.pages x pn ≡ some a
    → (x ≡ parent) × (pn ≡ 5) × (a ≡ own_page)
only_page parent pn a h = (let r = one_page (pn == 5) a h in (refl, ground (arith, r.0), r.1))
only_page child pn a h = absurd (ground (arith, h))

world0-IsPrivate : IsPrivate world0
world0-IsPrivate = record {
  used = λ x pn a h. rw ((only_page x pn a h).2) (omega arith);
  apart = λ x y pn qn a b h g same.
      (let r = only_page x pn a h in
        let q = only_page y qn b g in inl (r.0 ∙ sym q.0, r.1 ∙ sym q.1));
}

abbrev world1 : World
world1 = duppage 5 world0

abbrev world2 : World
world2 = store_word 10 0 7 (pgfault parent 5 (cow_entry 3) world1)

child_page : world1.pages child 5 ≡ some (cow_entry 3)
unfolding duppage dup_entry
child_page = refl

parent_page : world1.pages parent 5 ≡ some (cow_entry 3)
unfolding duppage dup_entry
parent_page = refl

written : write_entry parent 5 (cow_entry 3) 0 7 world1 ≡ some world2
unfolding write_entry duppage dup_entry
written = refl

write_unseen_example :
    (world2.pages child 5 ≡ some (cow_entry 3)) × (world2.frames 3 ≡ world1.frames 3)
write_unseen_example =
    write_unseen world2 parent child 5 5 0 7 (cow_entry 3) (cow_entry 3) world0-IsPrivate
      (next here (dup 5)) parent_page written (λ e. absurd (ground (arith, e))) child_page refl
