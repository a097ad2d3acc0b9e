-- ===== src/Kern/Pmap/Boot.antt =====
-- `page_init` of kern/pmap.c: which physical pages are free when the kernel starts.
use demo2s.Base.{
  equal_or_not, ℕ, zero, suc, ◌+◌, ◌-◌, ◌/◌, ◌≤◌, ◌<◌, ◌≡◌, refl, false, true, List, [], ◌∷◌, arith,
  ◌==◌, ◌∉◌, ◌||◌, ◌&&◌, ◌∙◌, Distinct, member, ltb, if◌then◌else◌, update_self, Bool, not, inl,
  inr,
}
use demo2s.Kern.Mmu.{round_page, by2pg}
use demo2s.Kern.State.{Kernel}
use demo2s.Kern.Pmap.{set_ref}
use demo2s.Kern.Pmap.Alloc.{IsFreeList, Unreferenced, Unreferenced-update}

-- EXTPHYSMEM
abbrev pub extphysmem : ℕ
extphysmem = 0x100000

-- The loops of `page_init` over `left` pages from the i-th on.
unfoldable pub mark_used : ℕ → ℕ → Kernel → Kernel
mark_used zero i k = k
mark_used (suc left) i k = mark_used left (i + 1) (set_ref i 1 k)

abbrev pub freed : ℕ → Kernel → Kernel
freed i k = record (set_ref i 0 k) { page_free_list = i ∷ k.page_free_list }

unfoldable pub mark_free : ℕ → ℕ → Kernel → Kernel
mark_free zero i k = k
mark_free (suc left) i k = mark_free left (i + 1) (freed i k)

abbrev pub max : ℕ → ℕ → ℕ
max i n = if ltb i n then n else i

-- `basemem` is the size of base memory, and `free` the physical address of `freemem`. Where a loop ends, the next one starts.
unfoldable pub page_init : ℕ → ℕ → Kernel → Kernel
unfolding mark_used mark_free
page_init basemem free k =
    let n1 = basemem / by2pg in
    let i1 = max 1 n1 in
    let i2 = max i1 (extphysmem / by2pg) in
    let i3 = max i2 (round_page free / by2pg) in
    let k0 = set_ref 0 1 (record k { page_free_list = [] }) in
    let k1 = mark_free (n1 - 1) 1 k0 in
    let k2 = mark_used (i2 - i1) i1 k1 in
    let k3 = mark_used (i3 - i2) i2 k2 in mark_free (k.npage - i3) i3 k3

-- All pages of a list are below i.
Below : ℕ → List ℕ → Type 0
Below i [] = Unit {0}
Below i (p ∷ ps) = (p < i) × Below i ps

Below-mono : (i j : ℕ) (ps : List ℕ) → i ≤ j → Below i ps → Below j ps
unfolding Below
Below-mono i j [] le b = tt
Below-mono i j (p ∷ ps) le (lt, b) = (omega (arith, lt, le), Below-mono i j ps le b)

Below-out : (i : ℕ) (ps : List ℕ) → Below i ps → i ∉ ps
unfolding Below
Below-out i [] b = refl
Below-out i (p ∷ ps) (lt, b) = let rest = Below-out i ps b in ground (arith, lt, rest)

unwanted :
    (want : ℕ → Bool) (i p : ℕ) → want i ≡ false → (ltb p i && want p) ≡ (ltb p (i + 1) && want p)
unwanted want i p w = elim (equal_or_not p i) [
  | inl eq ↦ rw eq (ground (arith, w))
  | inr ne ↦ ground (arith, ne)
]

wanted :
    (want : ℕ → Bool) (i p : ℕ) (m : Bool)
    → want i ≡ true
    → m ≡ (ltb p i && want p)
    → (p == i || m) ≡ (ltb p (i + 1) && want p)
wanted want i p m w e = elim (equal_or_not p i) [
  | inl eq ↦ rw eq (ground (arith, w))
  | inr ne ↦ ground (arith, ne, e)
]

-- The pages below i were visited, and those among them that `want` names are free.
record IsSwept (want : ℕ → Bool) (npage i : ℕ) (k : Kernel) : Type 0 where
  pages : k.npage ≡ npage
  distinct : Distinct k.page_free_list
  idle : Unreferenced npage k.refs k.page_free_list
  below : Below i k.page_free_list
  exact : (p : ℕ) → member p k.page_free_list ≡ (ltb p i && want p)

use_one :
    (want : ℕ → Bool) (npage i : ℕ) (k : Kernel)
    → want i ≡ false
    → IsSwept want npage i k
    → IsSwept want npage (i + 1) (set_ref i 1 k)
use_one want npage i k w s = record {
  pages = s.pages;
  distinct = s.distinct;
  idle =
      Unreferenced-update npage k.refs i 1 k.page_free_list (Below-out i k.page_free_list s.below)
        s.idle;
  below = Below-mono i (i + 1) k.page_free_list (omega arith) s.below;
  exact = λ p. s.exact p ∙ unwanted want i p w;
}

free_one :
    (want : ℕ → Bool) (npage i : ℕ) (k : Kernel)
    → want i ≡ true
    → i < npage
    → IsSwept want npage i k
    → IsSwept want npage (i + 1) (freed i k)
unfolding Below
free_one want npage i k w lt s =
    let out = Below-out i k.page_free_list s.below in
    record {
      pages = s.pages;
      distinct = (out, s.distinct);
      idle = (
        lt,
        update_self k.refs i 0,
        Unreferenced-update npage k.refs i 0 k.page_free_list out s.idle,
      );
      below = (omega arith, Below-mono i (i + 1) k.page_free_list (omega arith) s.below);
      exact = λ p. wanted want i p (member p k.page_free_list) w (s.exact p);
    }

mark_used-IsSwept :
    (left i : ℕ) (want : ℕ → Bool) (npage : ℕ) (k : Kernel)
    → ((j : ℕ) → i ≤ j → j < i + left → want j ≡ false)
    → IsSwept want npage i k
    → IsSwept want npage (i + left) (mark_used left i k)
unfolding mark_used
mark_used-IsSwept zero i want npage k no_one s = (let e : i + 0 ≡ i = omega arith in rw e s)
mark_used-IsSwept (suc left) i want npage k no_one s =
    let e : i + suc left ≡ i + 1 + left = omega arith in
    rw e (
      mark_used-IsSwept left (i + 1) want npage (set_ref i 1 k)
        (λ j lo hi. no_one j (omega (arith, lo)) (omega (arith, hi)))
        (use_one want npage i k (no_one i (omega arith) (omega arith)) s))

mark_free-IsSwept :
    (left i : ℕ) (want : ℕ → Bool) (npage : ℕ) (k : Kernel)
    → ((j : ℕ) → i ≤ j → j < i + left → want j ≡ true)
    → i + left ≤ npage
    → IsSwept want npage i k
    → IsSwept want npage (i + left) (mark_free left i k)
unfolding mark_free
mark_free-IsSwept zero i want npage k all_of le s = (let e : i + 0 ≡ i = omega arith in rw e s)
mark_free-IsSwept (suc left) i want npage k all_of le s =
    let e : i + suc left ≡ i + 1 + left = omega arith in
    rw e (
      mark_free-IsSwept left (i + 1) want npage (freed i k)
        (λ j lo hi. all_of j (omega (arith, lo)) (omega (arith, hi))) (omega (arith, le))
        (free_one want npage i k (all_of i (omega arith) (omega arith)) (omega (arith, le)) s))

-- Free: the pages below n1 without page 0, and those from i3 on.
abbrev pub is_wanted : ℕ → ℕ → ℕ → Bool
is_wanted n1 i3 p = (ltb 0 p && ltb p n1) || not (ltb p i3)

reached :
    (want : ℕ → Bool) (npage i j : ℕ) (k : Kernel)
    → i ≤ j
    → IsSwept want npage (i + (j - i)) k
    → IsSwept want npage j k
reached want npage i j k le s = (let e : j ≡ i + (j - i) = omega (arith, le) in rw e s)

max_one : (n : ℕ) → max 1 n ≡ 1 + (n - 1)
max_one n = ground arith

max_left : (i n : ℕ) → i ≤ max i n
max_left i n = ground arith

max_right : (i n : ℕ) → n ≤ max i n
max_right i n = ground arith

idle_at :
    (n npage : ℕ) (refs : ℕ → ℕ) (ps : List ℕ)
    → n ≡ npage
    → Unreferenced npage refs ps
    → Unreferenced n refs ps
idle_at n npage refs ps e u = rw e u

swept_list : (want : ℕ → Bool) (npage i : ℕ) (k : Kernel) → IsSwept want npage i k → IsFreeList k
swept_list want npage i k s = record {
  distinct = s.distinct;
  idle = idle_at k.npage npage k.refs k.page_free_list s.pages s.idle;
}

-- Page 0 is not wanted.
none_yet :
    (n1 i3 : ℕ) (k : Kernel)
    → 1 ≤ i3
    → IsSwept (is_wanted n1 i3) k.npage 1 (set_ref 0 1 (record k { page_free_list = [] }))
unfolding Below
none_yet n1 i3 k pos = record {
  pages = refl;
  distinct = tt;
  idle = tt;
  below = tt;
  exact = λ p. ground (arith, pos);
}

phases :
    (n1 i1 i2 i3 npage : ℕ) (k : Kernel)
    → i1 ≡ 1 + (n1 - 1)
    → n1 ≤ i1
    → i1 ≤ i2
    → i2 ≤ i3
    → i3 ≤ npage
    → IsSwept (is_wanted n1 i3) npage 1 k
    → IsSwept (is_wanted n1 i3) npage npage (
        mark_free
          (npage - i3)
          i3
          (mark_used (i3 - i2) i2 (mark_used (i2 - i1) i1 (mark_free (n1 - 1) 1 k))))
phases n1 i1 i2 i3 npage k e le1 le2 le3 le4 s =
    let want = is_wanted n1 i3 in
    let k1 = mark_free (n1 - 1) 1 k in
    let s1 : IsSwept want npage i1 k1 = rw e (
      mark_free-IsSwept (n1 - 1) 1 want npage k (λ j lo hi. ground (arith, lo, hi))
        (omega (arith, e, le2, le3, le4)) s) in
    let k2 = mark_used (i2 - i1) i1 k1 in
    let s2 : IsSwept want npage i2 k2 = reached want npage i1 i2 k2 le2 (
      mark_used-IsSwept (i2 - i1) i1 want npage k1
        (λ j lo hi. ground (arith, lo, hi, le1, le2, le3)) s1) in
    let k3 = mark_used (i3 - i2) i2 k2 in
    let s3 : IsSwept want npage i3 k3 = reached want npage i2 i3 k3 le3 (
      mark_used-IsSwept (i3 - i2) i2 want npage k2
        (λ j lo hi. ground (arith, lo, hi, le1, le2, le3)) s2) in
    reached want npage i3 npage (mark_free (npage - i3) i3 k3) le4 (
      mark_free-IsSwept (npage - i3) i3 want npage k3 (λ j lo hi. ground (arith, lo, hi))
        (omega (arith, le4)) s3)

abbrev pub first_free : ℕ → ℕ → ℕ
first_free basemem free =
    max (max (max 1 (basemem / by2pg)) (extphysmem / by2pg)) (round_page free / by2pg)

-- `page_init`, when base memory and what the kernel uses lie in the memory that there is: the free list is
-- without duplicates and its pages have no reference, and a page is on it exactly when it is a page of
-- memory other than page 0 in base memory, or one from both the end of the hole for devices and the end of the kernel on.
pub page_init_lem :
    (basemem free : ℕ) (k : Kernel)
    → basemem / 4096 ≤ k.npage
    → first_free basemem free ≤ k.npage
    → IsFreeList (page_init basemem free k)
      × ((p : ℕ)
          → member p (page_init basemem free k).page_free_list
            ≡ (ltb p k.npage && is_wanted (basemem / 4096) (first_free basemem free) p))
unfolding page_init
page_init_lem basemem free k low high =
    let n1 = basemem / by2pg in
    let i1 = max 1 n1 in
    let i2 = max i1 (extphysmem / by2pg) in
    let i3 = first_free basemem free in
    let k0 = set_ref 0 1 (record k { page_free_list = [] }) in
    let s =
      phases n1 i1 i2 i3 k.npage k0 (max_one n1) (max_right 1 n1) (max_left i1 (extphysmem / by2pg))
        (max_left i2 (round_page free / by2pg)) high
        (none_yet n1 i3 k (
          omega (
            arith,
            max_left 1 n1,
            max_left i1 (extphysmem / by2pg),
            max_left i2 (round_page free / by2pg),
          ))) in
    (swept_list (is_wanted n1 i3) k.npage k.npage _ s, s.exact)
