-- ===== src/Kern/Pmap/Insert.antt =====
-- `page_insert` where the page table of the address exists.
use demo2s.Base.{
  ℕ, ◌+◌, ◌*◌, ◌/◌, ◌^◌, ◌≤◌, ◌<◌, ◌≡◌, ap, subst, ◌≢◌, true, ◌&&◌, arith, ◌==◌, ◌∉◌, if◌then◌else◌,
  done, ok,
}
use demo2s.Kern.Mmu.{pdx, ptx, ppn, present, utop, mk_pte, mk_pte_lem}
use demo2s.Kern.State.{Kernel}
use demo2s.Kern.Pmap.{page_insert, set_word, incref, page_decref, tlb_invalidate}
use demo2s.Kern.Pmap.Space.{
  Space, IsSpace, IsPage, HasTable, table, frame, store, entry, entry-store, store-IsSpace,
}
use demo2s.Kern.Pmap.Remove.{
  entry_ptr, removed, pgdir_walk-found, page_remove-removed, removed-root, removed-entry,
  removed-Space, removed-refs, removed-free, removed-frame,
}

-- The state that a successful `page_insert` leaves.
abbrev pub inserted : ℕ → Kernel → ℕ → ℕ → ℕ → Kernel
inserted pgdir k pp va perm =
    set_word (entry_ptr pgdir k va) (mk_pte pp perm) (removed pgdir (incref pp k) va)

-- The page may be mapped in the space: it is a page of memory in use that is no table of it.
pub record IsMappable (pgdir : ℕ) (k : Kernel) (pp : ℕ) : Type 0 where
  pub inside : pp < k.npage
  pub small : k.npage ≤ 2 ^ 20
  pub used : pp ∉ k.page_free_list
  pub counted : k.refs pp + 1 < 2 ^ 16
  pub ne_root : pp ≢ pgdir
  pub ne_table : (l : ℕ) → l < 955 → HasTable pgdir k.mem l → pp ≢ table pgdir k.mem l

module _ (pgdir : ℕ) (k : Kernel) (pp va perm : ℕ) (s : Space pgdir k) (low : va < utop)
    (flags : perm < 4096) (has : HasTable pgdir k.mem (pdx va)) (mp : IsMappable pgdir k pp) where
  pub page_insert-inserted :
      page_insert pgdir pp va perm k ≡ done (ok tt) (inserted pgdir k pp va perm)
  unfolding page_insert
  page_insert-inserted = rw (
    pgdir_walk-found pgdir (incref pp k) s va low true has,
    page_remove-removed pgdir (incref pp k) s va low,
  )

  pub inserted-envs : (inserted pgdir k pp va perm).envs ≡ k.envs
  unfolding page_decref tlb_invalidate
  inserted-envs = ground arith

  pub inserted-curenv : (inserted pgdir k pp va perm).curenv ≡ k.curenv
  unfolding page_decref tlb_invalidate
  inserted-curenv = ground arith

  frame_new : frame (mk_pte pp perm) ≡ pp
  frame_new = omega (arith, mk_pte_lem pp perm (omega arith) flags)

  table_same : (i : ℕ) → (removed pgdir (incref pp k) va).mem pgdir i ≡ k.mem pgdir i
  table_same i = removed-root pgdir (incref pp k) s va low i

  still : HasTable pgdir (removed pgdir (incref pp k) va).mem (pdx va)
  still = rw (table_same (pdx va)) has

  new_good :
      IsPage pgdir
        (removed pgdir (incref pp k) va).npage
        (removed pgdir (incref pp k) va).mem
        (mk_pte pp perm)
  new_good h = rw frame_new (
    rw (removed-frame pgdir (incref pp k) s va low) mp.inside,
    mp.ne_root,
    λ l b t. rw (table_same l) (mp.ne_table l b (rw (table_same l) at t)),
  )

  same_table :
      table pgdir (removed pgdir (incref pp k) va).mem (pdx va) ≡ table pgdir k.mem (pdx va)
  same_table = ap frame (table_same (pdx va))

  inserted-Space : Space pgdir (inserted pgdir k pp va perm)
  inserted-Space =
      subst
        (λ t.
          IsSpace pgdir (removed pgdir (incref pp k) va).npage
            (store (removed pgdir (incref pp k) va).mem t (ptx va) (mk_pte pp perm))
            (removed pgdir (incref pp k) va).page_free_list)
        same_table
        (store-IsSpace (removed-Space pgdir (incref pp k) s va low) va (mk_pte pp perm) low still
          new_good)

  pub inserted-entry :
      (va' : ℕ)
      → va' < utop
      → entry pgdir (inserted pgdir k pp va perm).mem va'
        ≡ (if ppn va == ppn va' then mk_pte pp perm else entry pgdir k.mem va')
  inserted-entry va' low' =
      subst
        (λ t.
          entry pgdir (store (removed pgdir (incref pp k) va).mem t (ptx va) (mk_pte pp perm)) va'
          ≡ (if ppn va == ppn va' then mk_pte pp perm else entry pgdir k.mem va'))
        same_table
        (rw
          (entry-store (removed-Space pgdir (incref pp k) s va low) va (mk_pte pp perm) low still
            va' low')
          (ground (arith, removed-entry pgdir (incref pp k) s va low va' low')))

  -- The reference counts, when the page that was mapped before had one.
  inserted-refs :
      (p : ℕ)
      → k.refs p < 2 ^ 16
      → (present (entry pgdir k.mem va) ≡ true → 1 ≤ k.refs (frame (entry pgdir k.mem va)))
      → (inserted pgdir k pp va perm).refs p
          + (if present (entry pgdir k.mem va) && frame (entry pgdir k.mem va) == p then 1 else 0)
        ≡ k.refs p + (if pp == p then 1 else 0)
  inserted-refs p word live =
      rw (removed-refs pgdir (incref pp k) s va low p) (ground (arith, live, mp.counted))

  -- A page in use does not get onto the free list by being mapped.
  inserted-used :
      (present (entry pgdir k.mem va) ≡ true → 1 ≤ k.refs (frame (entry pgdir k.mem va)))
      → pp ∉ (inserted pgdir k pp va perm).page_free_list
  inserted-used live =
      rw (removed-free pgdir (incref pp k) s va low) (ground (arith, live, mp.counted, mp.used))

-- `page_insert` at an address whose page table exists always succeeds: the page is mapped there
-- with the permissions asked for and PTE_P, every other page keeps its entry, the address space
-- stays well formed, the page mapped before loses one reference and the new one gains one (so
-- mapping a page again where it is changes no count), and the new page is not on the free list.
pub page_insert_lem :
    (pgdir : ℕ) (k : Kernel) (pp va perm va' p : ℕ)
    → Space pgdir k
    → va < utop
    → va' < utop
    → perm < 4096
    → HasTable pgdir k.mem (pdx va)
    → IsMappable pgdir k pp
    → k.refs p < 2 ^ 16
    → (present (entry pgdir k.mem va) ≡ true → 1 ≤ k.refs (frame (entry pgdir k.mem va)))
    → (k' : Kernel) × (page_insert pgdir pp va perm k ≡ done (ok tt) k')
      × Space pgdir k'
      × (entry pgdir k'.mem va'
          ≡ (if ppn va == ppn va' then pp * 4096 + perm / 2 * 2 + 1 else entry pgdir k.mem va'))
      × (k'.refs p
            + (if present (entry pgdir k.mem va) && frame (entry pgdir k.mem va) == p then 1 else 0)
          ≡ k.refs p + (if pp == p then 1 else 0))
      × (pp ∉ k'.page_free_list)
page_insert_lem pgdir k pp va perm va' p s low low' flags has mp word live = (
  inserted pgdir k pp va perm,
  page_insert-inserted pgdir k pp va perm s low flags has mp,
  inserted-Space pgdir k pp va perm s low flags has mp,
  rw (inserted-entry pgdir k pp va perm s low flags has mp va' low')
      (rw (mk_pte_lem pp perm (omega (arith, mp.inside, mp.small)) flags)),
  inserted-refs pgdir k pp va perm s low flags has mp p word live,
  inserted-used pgdir k pp va perm s low flags has mp live,
)
