-- ===== src/Kern/Pmap.antt =====
-- kern/pmap.c: physical pages with reference counts, and two-level page tables. A page is its index
-- in `pages`; a page directory or table is the page that holds it; a `Pte *` is a page with the
-- index of a word in it. `__LAB__3__` is defined nowhere, so the branches without it are modelled.
pub mod Space
pub mod Remove
pub mod Alloc
pub mod Boot
pub mod Mapping
pub mod Insert
use demo2s.Base.{
  ℕ, ◌+◌, ◌-◌, ◌^◌, ◌<◌, ◌≡◌, arith, Bool, true, false, not, Option, none, some, [], ◌∷◌, M, done,
  panic, pure, ◌>>=◌, ◌>>◌, get, modify, try, Ret, ok, err, no_mem, u16, update, leb, ◌==◌,
  if◌then◌else◌,
}
use demo2s.Kern.Mmu.{pdx, ptx, ppn, pte_addr, present, pte_w, pte_u, page2pa, mk_pte}
use demo2s.Kern.State.{Kernel}

abbrev pub Pte : Type 0
Pte = ℕ × ℕ

-- `KADDR(pa)` with the page of the result, and `pa2page(pa)`: both check the page number first.
unfoldable pub kaddr : ℕ → M Kernel ℕ
kaddr pa k = if leb k.npage (ppn pa) then panic else done (ppn pa) k

unfoldable pub pa2page : ℕ → M Kernel ℕ
pa2page pa k = if leb k.npage (ppn pa) then panic else done (ppn pa) k

pub kaddr_ok : (pa p : ℕ) (k : Kernel) → ppn pa ≡ p → p < k.npage → kaddr pa k ≡ done p k
unfolding kaddr
kaddr_ok pa p k e h = ground arith

pub pa2page_ok : (pa p : ℕ) (k : Kernel) → ppn pa ≡ p → p < k.npage → pa2page pa k ≡ done p k
unfolding pa2page
pa2page_ok pa p k e h = ground arith

-- Writes to the state.
abbrev pub set_word : Pte → ℕ → Kernel → Kernel
set_word (t, i) w k = record k { mem = update k.mem t (update (k.mem t) i w) }

abbrev pub zero_page : ℕ → Kernel → Kernel
zero_page p k = record k { mem = update k.mem p (λ _. 0) }

abbrev pub set_ref : ℕ → ℕ → Kernel → Kernel
set_ref p n k = record k { refs = update k.refs p n }

-- `pp->pp_ref++` and `--pp->pp_ref` on a `u_short`
abbrev pub incref : ℕ → Kernel → Kernel
incref p k = set_ref p (u16 (k.refs p + 1)) k

abbrev pub decref : ℕ → Kernel → Kernel
decref p k = set_ref p (u16 (k.refs p + 2 ^ 16 - 1)) k

unfoldable pub page_initpp : ℕ → Kernel → Kernel
page_initpp p k = set_ref p 0 k

unfoldable pub page_alloc : M Kernel (Ret ℕ)
page_alloc k = elim k.page_free_list [
  | [] ↦ done (err no_mem) k
  | p ∷ rest ↦ done (ok p) (record k { page_free_list = rest })
]

unfoldable pub page_free : ℕ → Kernel → Kernel
unfolding page_initpp
page_free p k = let k' = page_initpp p k in record k' { page_free_list = p ∷ k'.page_free_list }

unfoldable pub page_decref : ℕ → Kernel → Kernel
unfolding page_free
page_decref p k = let k' = decref p k in if k'.refs p == 0 then page_free p k' else k'

-- `tlb_invalidate`: `invlpg` unless the tables edited are not those in use.
in_use : ℕ → Kernel → Bool
in_use pgdir k = elim k.curenv [
  | none ↦ true
  | some e ↦ elim (k.envs e).pgdir [ none ↦ false | some d ↦ d == pgdir ]
]

unfoldable pub tlb_invalidate : ℕ → ℕ → Kernel → Kernel
unfolding in_use
tlb_invalidate pgdir va k = if in_use pgdir k then record k { tlb = va ∷ k.tlb } else k

-- `*ppte = (Pte*)KADDR(PTE_ADDR(pgdir[PDX(va)])) + PTX(va)`
unfoldable pub walk_entry : ℕ → ℕ → M Kernel (Ret (Option Pte))
walk_entry pgdir va k =
    (do table ← kaddr (pte_addr (k.mem pgdir (pdx va))); pure (ok (some (table, ptx va)))) k

-- The branch of `pgdir_walk` that installs a fresh page table.
unfoldable pub new_table : ℕ → ℕ → ℕ → M Kernel (Unit {0})
new_table pgdir va p = do
  table ← kaddr (page2pa p)
  modify (zero_page table)
  modify (incref p)
  modify (set_word (pgdir, pdx va) (mk_pte p (pte_w + pte_u)))

-- The success value is `*ppte`; it is null where there is no table and none is to be created.
unfoldable pub pgdir_walk : ℕ → ℕ → Bool → M Kernel (Ret (Option Pte))
unfolding walk_entry new_table page_alloc
pgdir_walk pgdir va create k =
    if present (k.mem pgdir (pdx va))
    then walk_entry pgdir va k
    else if create
    then try page_alloc (λ p. do new_table pgdir va p; walk_entry pgdir va) k
    else done (ok none) k

abbrev pub read_entry : ℕ → Option ℕ
read_entry pte = if present pte then some (pte_addr pte) else none

-- `va2pa`, with `none` for ~0.
unfoldable pub va2pa : ℕ → ℕ → M Kernel (Option ℕ)
va2pa pgdir va k =
    if present (k.mem pgdir (pdx va))
    then (do
      table ← kaddr (pte_addr (k.mem pgdir (pdx va)))
      k' ← get
      pure (read_entry (k'.mem table (ptx va))))
        k
    else done none k

-- The page mapped at `va`, and its entry (`*ppte`).
lookup_entry : Ret (Option Pte) → M Kernel (Option ℕ × Option Pte)
lookup_entry (err e) k = done (none, none) k
lookup_entry (ok none) k = done (none, none) k
lookup_entry (ok (some (t, i))) k = (do p ← pa2page (k.mem t i); pure (some p, some (t, i))) k

unfoldable pub page_lookup : ℕ → ℕ → M Kernel (Option ℕ × Option Pte)
unfolding pgdir_walk lookup_entry
page_lookup pgdir va = do r ← pgdir_walk pgdir va false; lookup_entry r

-- `page_remove` from the entry that the walk found.
unmap_entry : ℕ → ℕ → Ret (Option Pte) → M Kernel (Unit {0})
unfolding page_decref tlb_invalidate
unmap_entry pgdir va (err e) k = done tt k
unmap_entry pgdir va (ok none) k = done tt k
unmap_entry pgdir va (ok (some (t, i))) k =
    if not (present (k.mem t i))
    then done tt k
    else ((do
      page ← pa2page (k.mem t i)
      modify (page_decref page)
      modify (set_word (t, i) 0)
      modify (tlb_invalidate pgdir va))
        k)

unfoldable pub page_remove : ℕ → ℕ → M Kernel (Unit {0})
unfolding pgdir_walk unmap_entry
page_remove pgdir va = do r ← pgdir_walk pgdir va false; unmap_entry pgdir va r

-- `page_insert` once the entry is known. A walk that creates never finds a null entry.
install : ℕ → ℕ → ℕ → ℕ → Ret (Option Pte) → M Kernel (Ret (Unit {0}))
unfolding page_remove
install pgdir pp va perm (err e) k = done (err no_mem) (decref pp k)
install pgdir pp va perm (ok none) k = panic
install pgdir pp va perm (ok (some pte)) k =
    (do page_remove pgdir va; modify (set_word pte (mk_pte pp perm)); pure (ok tt)) k

unfoldable pub page_insert : ℕ → ℕ → ℕ → ℕ → M Kernel (Ret (Unit {0}))
unfolding pgdir_walk install
page_insert pgdir pp va perm = do
  modify (incref pp)
  r ← pgdir_walk pgdir va true
  install pgdir pp va perm r
