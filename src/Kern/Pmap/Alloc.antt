-- ===== src/Kern/Pmap/Alloc.antt =====
-- The free list of physical pages: `page_alloc`, `page_free`, `page_decref`, and the paths of
-- `page_insert` and `page_lookup` that the address space decides.
use demo2s.Base.{
  ℕ, ◌+◌, ◌-◌, ◌^◌, ◌≤◌, ◌<◌, ◌≡◌, ◌⊎◌, refl, false, inl, inr, none, some, List, [], ◌∷◌, arith,
  ◌==◌, u16, ◌∉◌, Distinct, if◌then◌else◌, done, ok, err, no_mem, Bool-cases, update, ==_refl, ap,
  fun_ext,
}
use demo2s.Kern.Mmu.{pdx, ptx, present, utop}
use demo2s.Kern.State.{Kernel}
use demo2s.Kern.Pmap.{page_alloc, incref, page_decref, page_insert, page_lookup, pa2page_ok}
use demo2s.Kern.Pmap.Space.{Space, table, frame, entry}
use demo2s.Kern.Pmap.Remove.{entry_ptr, pgdir_walk-found, pgdir_walk-absent}

-- Every page of the list is a page of memory with no reference.
abbrev pub Unreferenced : ℕ → (ℕ → ℕ) → List ℕ → Type 0
Unreferenced npage refs [] = Unit {0}
Unreferenced npage refs (p ∷ ps) = (p < npage) × (refs p ≡ 0) × Unreferenced npage refs ps

pub record IsFreeList (k : Kernel) : Type 0 where
  pub distinct : Distinct k.page_free_list
  pub idle : Unreferenced k.npage k.refs k.page_free_list

pub Unreferenced-update :
    (npage : ℕ) (refs : ℕ → ℕ) (q n : ℕ) (ps : List ℕ)
    → q ∉ ps
    → Unreferenced npage refs ps
    → Unreferenced npage (update refs q n) ps
Unreferenced-update npage refs q n [] out u = tt
Unreferenced-update npage refs q n (p ∷ ps) out u =
    (u.0, ground arith, Unreferenced-update npage refs q n ps (ground arith) u.2)

-- What `page_alloc` may answer: an error on an empty list and nothing changed, or the first page of
-- the list, which leaves it.
abbrev pub Allocated : Kernel → Type 0
Allocated k =
    ((k.page_free_list ≡ []) × (page_alloc k ≡ done (err no_mem) k))
    ⊎ ((p : ℕ) × (k' : Kernel) × (page_alloc k ≡ done (ok p) k')
        × IsFreeList k'
        × (p ∉ k'.page_free_list)
        × (p < k.npage)
        × (k'.refs p ≡ 0)
        × (k.page_free_list ≡ p ∷ k'.page_free_list))

page_alloc-nil : (k : Kernel) → k.page_free_list ≡ [] → page_alloc k ≡ done (err no_mem) k
unfolding page_alloc
page_alloc-nil k e = rw e

alloc_cases :
    (k : Kernel) (l : List ℕ)
    → k.page_free_list ≡ l
    → Distinct l
    → Unreferenced k.npage k.refs l
    → Allocated k
unfolding page_alloc
alloc_cases k [] e d u = inl (e, rw e)
alloc_cases k (p ∷ rest) e d u = inr (
  p,
  record k { page_free_list = rest },
  rw e,
  record { distinct = d.1; idle = u.2 },
  d.0,
  u.0,
  u.1,
  e,
)

-- `page_alloc` fails with E_NO_MEM exactly when the free list is empty, and otherwise hands out a
-- page of memory without references that is no longer on the list.
pub page_alloc_lem : (k : Kernel) → IsFreeList k → Allocated k
page_alloc_lem k f = alloc_cases k k.page_free_list refl f.distinct f.idle

-- `page_decref` of a page in use keeps the free list sound: the page enters it exactly when its
-- last reference goes, and then has no reference and stands on the list once.
pub page_decref-IsFreeList :
    (k : Kernel) (p : ℕ)
    → IsFreeList k
    → p < k.npage
    → p ∉ k.page_free_list
    → 1 ≤ k.refs p
    → k.refs p < 2 ^ 16
    → IsFreeList (page_decref p k)
      × ((page_decref p k).refs p ≡ k.refs p - 1)
      × ((page_decref p k).page_free_list
          ≡ (if k.refs p == 1 then p ∷ k.page_free_list else k.page_free_list))
unfolding page_decref
page_decref-IsFreeList k p f inside out live word = (
  elim (Bool-cases (u16 (k.refs p + 2 ^ 16 - 1) == 0)) [
    | inl e ↦
        rw (==_refl p, e)
          (record {
            distinct = (out, f.distinct);
            idle =
                (inside, ground arith, Unreferenced-update k.npage _ p 0 k.page_free_list out kept);
          })
    | inr e ↦ rw (==_refl p, e) (record { distinct = f.distinct; idle = kept })
  ],
  ground arith,
  ground arith,
)
  where
    kept : Unreferenced k.npage (update k.refs p (u16 (k.refs p + 2 ^ 16 - 1))) k.page_free_list
    kept = Unreferenced-update k.npage k.refs p _ k.page_free_list out f.idle

-- With no page left, `page_insert` at an address without a page table fails and changes nothing,
-- the reference count of the page included.
pub page_insert_no_mem :
    (pgdir : ℕ) (k : Kernel) (pp va perm : ℕ)
    → present (k.mem pgdir (pdx va)) ≡ false
    → k.page_free_list ≡ []
    → k.refs pp < 2 ^ 16
    → page_insert pgdir pp va perm k ≡ done (err no_mem) k
unfolding page_insert
page_insert_no_mem pgdir k pp va perm absent empty word =
    rw (absent, page_alloc-nil (incref pp k) empty)
      (ap (λ r. done (err no_mem) (record k { refs = r })) (fun_ext λ q. ground arith))

-- `page_lookup` answers by the page table alone: where the table exists it returns the page that
-- the entry's address field names, whether or not the entry is present.
pub page_lookup_lem :
    (pgdir : ℕ) (k : Kernel) (va : ℕ)
    → Space pgdir k
    → va < utop
    → frame (entry pgdir k.mem va) < k.npage
    → page_lookup pgdir va k
      ≡ done
          (if present (k.mem pgdir (pdx va))
            then (some (frame (entry pgdir k.mem va)), some (entry_ptr pgdir k va))
            else (none, none))
          k
unfolding page_lookup
page_lookup_lem pgdir k va s low inside = elim (Bool-cases (present (k.mem pgdir (pdx va)))) [
  | inr e ↦ rw (pgdir_walk-absent pgdir k s va low e, e)
  | inl e ↦ rw (
    pgdir_walk-found pgdir k s va low false e,
    e,
    pa2page_ok (k.mem (table pgdir k.mem (pdx va)) (ptx va))
        (frame (k.mem (table pgdir k.mem (pdx va)) (ptx va))) k refl (rw e at inside),
  )
]
