-- ===== src/User/Fork/Private.antt =====
-- Memory that is not shared after `fork` of user/fork.c.
use demo2s.Base.{
  ℕ, zero, suc, ◌+◌, ◌<◌, ◌≡◌, ◌⊎◌, inl, inr, refl, sym, ◌∙◌, Bool, true, false, not, ◌&&◌, ◌||◌,
  Option, none, some, ◌==◌, if◌then◌else◌, arith, Bool-cases,
}
use demo2s.User.Fork.{
  Pte, Side, parent, child, World, is_side, set_page, cow_entry, read_only_entry, library_entry,
  own_entry, dup_entry, duppage, pgfault, store_word, write_entry,
}

-- Two entries of the same page of memory are one entry, or of library pages, or of one page number, where neither may write.
abbrev pub Apart : Side → Side → ℕ → ℕ → Pte → Pte → Type 0
Apart x y pn qn a b =
    ((x ≡ y) × (pn ≡ qn))
    ⊎ (((a.library ≡ true) × (b.library ≡ true))
        ⊎ ((pn ≡ qn) × (a.writable ≡ false) × (b.writable ≡ false)))

pub record IsPrivate (w : World) : Type 0 where
  pub used : (x : Side) (pn : ℕ) (a : Pte) → w.pages x pn ≡ some a → a.frame < w.next
  pub apart :
      (x y : Side) (pn qn : ℕ) (a b : Pte)
      → w.pages x pn ≡ some a
      → w.pages y qn ≡ some b
      → a.frame ≡ b.frame
      → Apart x y pn qn a b

same_side : (x y : Side) → is_side x y ≡ true → x ≡ y
same_side parent parent e = refl
same_side parent child e = absurd (ground (arith, e))
same_side child parent e = absurd (ground (arith, e))
same_side child child e = refl

self_side : (x : Side) → is_side x x ≡ true
self_side parent = refl
self_side child = refl

same_entry : (e b : Pte) → ◌≡◌ {A = Option Pte} (some e) (some b) → b ≡ e
same_entry e b h = cc

choose :
    (c : Bool) (e b : Pte) (o : Option Pte)
    → (if c then some e else o) ≡ some b
    → ((c ≡ true) × (b ≡ e)) ⊎ ((c ≡ false) × (o ≡ some b))
choose true e b o h = inl (refl, same_entry e b h)
choose false e b o h = inr (refl, h)

-- What an entry is after one was set: the new one, or an old one in another place.
set_cases :
    (x y : Side) (pn qn : ℕ) (e b : Pte) (w : World)
    → (set_page x pn e w).pages y qn ≡ some b
    → ((x ≡ y) × (pn ≡ qn) × (b ≡ e))
      ⊎ (((is_side x y && pn == qn) ≡ false) × (w.pages y qn ≡ some b))
set_cases x y pn qn e b w h = elim (choose (is_side x y && pn == qn) e b (w.pages y qn) h) [
  | inl (c, be) ↦ inl (same_side x y (ground (arith, c)), ground (arith, c), be)
  | inr (c, old) ↦ inr (c, old)
]

not_there :
    (x y : Side) (pn qn : ℕ) → (is_side x y && pn == qn) ≡ false → x ≡ y → pn ≡ qn → zero ≡ suc zero
not_there x y pn qn c xy pq =
    let s : is_side x y ≡ true = rw xy (self_side y) in ground (arith, s, c, pq)

flip : (x y : Side) (pn qn : ℕ) (a b : Pte) → Apart x y pn qn a b → Apart y x qn pn b a
flip x y pn qn a b (inl (xy, pq)) = inl (sym xy, sym pq)
flip x y pn qn a b (inr (inl (la, lb))) = inr (inl (lb, la))
flip x y pn qn a b (inr (inr (pq, wa, wb))) = inr (inr (sym pq, wb, wa))

-- Setting an entry keeps memory private, when it is apart from the entries in other places.
set_page-IsPrivate :
    (x : Side) (pn : ℕ) (e : Pte) (w : World)
    → IsPrivate w
    → e.frame < w.next
    → ((y : Side) (qn : ℕ) (b : Pte)
        → (is_side x y && pn == qn) ≡ false
        → w.pages y qn ≡ some b
        → e.frame ≡ b.frame
        → Apart x y pn qn e b)
    → IsPrivate (set_page x pn e w)
set_page-IsPrivate x pn e w v lt far = record {
  used = λ y qn b h. elim (set_cases x y pn qn e b w h) [
    | inl (xy, pq, be) ↦ rw be lt
    | inr (c, old) ↦ v.used y qn b old
  ];
  apart = λ y z qn rn a b h g same.
      both y z qn rn a b same (set_cases x y pn qn e a w h) (set_cases x z pn rn e b w g);
}
  where
    both :
        (y z : Side) (qn rn : ℕ) (a b : Pte)
        → a.frame ≡ b.frame
        → ((x ≡ y) × (pn ≡ qn) × (a ≡ e))
          ⊎ (((is_side x y && pn == qn) ≡ false) × (w.pages y qn ≡ some a))
        → ((x ≡ z) × (pn ≡ rn) × (b ≡ e))
          ⊎ (((is_side x z && pn == rn) ≡ false) × (w.pages z rn ≡ some b))
        → Apart y z qn rn a b
    both y z qn rn a b same (inl (xy, pq, ae)) (inl (xz, pr, be)) = inl (sym xy ∙ xz, sym pq ∙ pr)
    both y z qn rn a b same (inl (xy, pq, ae)) (inr (c, old)) =
        rw (sym xy, sym pq, ae) (far z rn b c old (rw⁻¹ ae same))
    both y z qn rn a b same (inr (c, old)) (inl (xz, pr, be)) =
        flip z y rn qn b a (rw (sym xz, sym pr, be) (far y qn a c old (rw⁻¹ be (sym same))))
    both y z qn rn a b same (inr (c, old)) (inr (d, old')) = v.apart y z qn rn a b old old' same

one_entry :
    (w : World) (x y : Side) (pn qn : ℕ) (a b : Pte)
    → x ≡ y
    → pn ≡ qn
    → w.pages x pn ≡ some a
    → w.pages y qn ≡ some b
    → b ≡ a
one_entry w x y pn qn a b xy pq h g =
    let h' : w.pages y qn ≡ some a = rw⁻¹ (xy, pq) h in same_entry a b (sym h' ∙ g)

-- The entries that have the parent's page pn of memory, but for the child's entry at pn.
others :
    (w : World) (pn : ℕ) (a : Pte)
    → IsPrivate w
    → w.pages parent pn ≡ some a
    → (y : Side) (qn : ℕ) (b : Pte) → (is_side child y && pn == qn) ≡ false
    → w.pages y qn ≡ some b
    → a.frame ≡ b.frame
    → ((b ≡ a) × (pn ≡ qn)) ⊎ ((a.library ≡ true) × (b.library ≡ true))
others w pn a v h y qn b c g same = go y c g (v.apart parent y pn qn a b h g same)
  where
    go :
        (y : Side)
        → (is_side child y && pn == qn) ≡ false
        → w.pages y qn ≡ some b
        → Apart parent y pn qn a b
        → ((b ≡ a) × (pn ≡ qn)) ⊎ ((a.library ≡ true) × (b.library ≡ true))
    go y c g (inl (xy, pq)) = inl (one_entry w parent y pn qn a b xy pq h g, pq)
    go y c g (inr (inl libs)) = inr libs
    go parent c g (inr (inr (pq, wa, wb))) =
        inl (one_entry w parent parent pn qn a b refl pq h g, pq)
    go child c g (inr (inr (pq, wa, wb))) =
        absurd (omega (arith, not_there child child pn qn c refl pq))

dup_library :
    (w : World) (pn : ℕ) (a : Pte)
    → IsPrivate w
    → w.pages parent pn ≡ some a
    → a.library ≡ true
    → IsPrivate (set_page child pn (library_entry a.frame) w)
dup_library w pn a v h lib =
    set_page-IsPrivate child pn (library_entry a.frame) w v (v.used parent pn a h)
      λ y qn b c g same. elim (others w pn a v h y qn b c g same) [
        | inl (ba, pq) ↦ inr (inl (refl, rw ba lib))
        | inr (la, lb) ↦ inr (inl (refl, lb))
      ]

dup_read_only :
    (w : World) (pn : ℕ) (a : Pte)
    → IsPrivate w
    → w.pages parent pn ≡ some a
    → a.library ≡ false
    → a.writable ≡ false
    → IsPrivate (set_page child pn (read_only_entry a.frame) w)
dup_read_only w pn a v h lib ro =
    set_page-IsPrivate child pn (read_only_entry a.frame) w v (v.used parent pn a h)
      λ y qn b c g same. elim (others w pn a v h y qn b c g same) [
        | inl (ba, pq) ↦ inr (inr (pq, refl, rw ba ro))
        | inr (la, lb) ↦ absurd (ground (arith, la, lib))
      ]

dup_cow :
    (w : World) (pn : ℕ) (a : Pte)
    → IsPrivate w
    → w.pages parent pn ≡ some a
    → a.library ≡ false
    → IsPrivate (set_page child pn (cow_entry a.frame) (set_page parent pn (cow_entry a.frame) w))
dup_cow w pn a v h lib =
    let w1 = set_page parent pn (cow_entry a.frame) w in
    let v1 : IsPrivate w1 =
      set_page-IsPrivate parent pn (cow_entry a.frame) w v (v.used parent pn a h) λ y qn b c g same.
        elim (v.apart parent y pn qn a b h g same) [
          | inl (py, pq) ↦ absurd (omega (arith, not_there parent y pn qn c py pq))
          | inr (inl (la, lb)) ↦ absurd (ground (arith, la, lib))
          | inr (inr (pq, wa, wb)) ↦ inr (inr (pq, refl, wb))
        ] in
    let there : w1.pages parent pn ≡ some (cow_entry a.frame) = ground arith in
    set_page-IsPrivate child pn (cow_entry a.frame) w1 v1 (v.used parent pn a h) λ y qn b c g same.
      elim (others w1 pn (cow_entry a.frame) v1 there y qn b c g same) [
        | inl (ba, pq) ↦ inr (inr (pq, refl, rw ba refl))
        | inr (la, lb) ↦ absurd (ground (arith, la))
      ]

pub same_world : {u w : World} → ◌≡◌ {A = Option World} (some u) (some w) → u ≡ w
same_world e = cc

branch-IsPrivate :
    (b : Bool) (x y : World)
    → (b ≡ true → IsPrivate x)
    → (b ≡ false → IsPrivate y)
    → IsPrivate (if b then x else y)
branch-IsPrivate true x y vx vy = vx refl
branch-IsPrivate false x y vx vy = vy refl

dup_entry-IsPrivate :
    (w : World) (pn : ℕ) (a : Pte)
    → IsPrivate w
    → w.pages parent pn ≡ some a
    → IsPrivate (dup_entry pn a w)
unfolding dup_entry
dup_entry-IsPrivate w pn a v h =
    branch-IsPrivate (not a.user) _ _ (λ _. v)
      λ _. branch-IsPrivate a.library _ _ (dup_library w pn a v h) λ lib.
        branch-IsPrivate (a.writable || a.cow) _ _ (λ _. dup_cow w pn a v h lib)
          λ ro. dup_read_only w pn a v h lib (ground (arith, ro))

pub duppage-IsPrivate : (w : World) (pn : ℕ) → IsPrivate w → IsPrivate (duppage pn w)
unfolding duppage
duppage-IsPrivate w pn v = go (w.pages parent pn) refl
  where
    go :
        (o : Option Pte)
        → w.pages parent pn ≡ o
        → IsPrivate (elim o as (λ _. World) [ none ↦ w | some e ↦ dup_entry pn e w ])
    go none h = v
    go (some e) h = dup_entry-IsPrivate w pn e v h

pgfault-IsPrivate :
    (w : World) (x : Side) (pn : ℕ) (e : Pte) → IsPrivate w → IsPrivate (pgfault x pn e w)
unfolding pgfault
pgfault-IsPrivate w x pn e v =
    let w1 = record w { next = w.next + 1 } in
    let v1 : IsPrivate w1 = record {
      used = λ y qn b g. (let u = v.used y qn b g in omega (arith, u));
      apart = v.apart;
    } in
    let v2 =
      set_page-IsPrivate x pn (own_entry w.next) w1 v1 (omega arith)
        λ y qn b c g same. (let u = v.used y qn b g in absurd (omega (arith, u, same))) in
    record { used = v2.used; apart = v2.apart }

pub write_entry-IsPrivate :
    (w w' : World) (x : Side) (pn i n : ℕ) (e : Pte)
    → IsPrivate w
    → write_entry x pn e i n w ≡ some w'
    → IsPrivate w'
unfolding write_entry
write_entry-IsPrivate w w' x pn i n e v h = elim (Bool-cases (e.user && e.writable)) [
  | inl y ↦
      (let run : write_entry x pn e i n w ≡ some (store_word e.frame i n w) =
          rw (write_entry, y) refl in
        let eq : w' ≡ store_word e.frame i n w = same_world (sym h ∙ run) in
        rw eq (record { used = v.used; apart = v.apart }))
  | inr ro ↦ elim (Bool-cases e.cow) [
    | inl y ↦
        (let run : write_entry x pn e i n w ≡ some (store_word w.next i n (pgfault x pn e w)) =
            rw (write_entry, ro, y) refl in
          let eq : w' ≡ store_word w.next i n (pgfault x pn e w) = same_world (sym h ∙ run) in
          let v1 = pgfault-IsPrivate w x pn e v in
          rw eq (record { used = v1.used; apart = v1.apart }))
    | inr c ↦ absurd (ground (arith, h, ro, c))
  ]
]
