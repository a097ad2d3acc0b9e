-- ===== src/Kern/Pmap/Remove.antt =====
-- `pgdir_walk` without allocation, `page_lookup` and `page_remove` on a well-formed address space.
use demo2s.Base.{
  ℕ, ◌+◌, ◌-◌, ◌^◌, ◌<◌, ◌≡◌, sym, refl, Bool, false, inl, inr, none, some, ◌∷◌, ◌&&◌, arith, ◌==◌,
  u16, if◌then◌else◌, done, ok, Bool-cases,
}
use demo2s.Kern.Mmu.{pdx, ptx, ppn, pte_addr, present, utop}
use demo2s.Kern.State.{Kernel}
use demo2s.Kern.Pmap.{
  Pte, pgdir_walk, page_remove, page_decref, tlb_invalidate, set_word, read_entry, kaddr_ok,
  pa2page_ok,
}
use demo2s.Kern.Pmap.Space.{
  Space, HasTable, entry_same_page, table, frame, entry, store, entry-store, root_same,
  store-IsSpace, free_if-IsSpace,
}

abbrev pub entry_ptr : ℕ → Kernel → ℕ → Pte
entry_ptr pgdir k va = (table pgdir k.mem (pdx va), ptx va)

-- The state that `page_remove` leaves.
abbrev pub removed : ℕ → Kernel → ℕ → Kernel
removed pgdir k va =
    if present (entry pgdir k.mem va)
    then tlb_invalidate pgdir va
        (set_word (entry_ptr pgdir k va) 0 (page_decref (frame (entry pgdir k.mem va)) k))
    else k

module _ (pgdir : ℕ) (k : Kernel) (s : Space pgdir k) (va : ℕ) (low : va < utop) where
  pub pgdir_walk-found :
      (create : Bool)
      → HasTable pgdir k.mem (pdx va)
      → pgdir_walk pgdir va create k ≡ done (ok (some (entry_ptr pgdir k va))) k
  unfolding pgdir_walk
  pgdir_walk-found create has = rw (
    has,
    kaddr_ok (pte_addr (k.mem pgdir (pdx va))) (table pgdir k.mem (pdx va)) k (omega arith)
        (s.table_in (pdx va) (omega arith) has),
  )

  pub pgdir_walk-absent :
      present (k.mem pgdir (pdx va)) ≡ false → pgdir_walk pgdir va false k ≡ done (ok none) k
  unfolding pgdir_walk
  pgdir_walk-absent e = rw e

  pub page_remove-removed : page_remove pgdir va k ≡ done tt (removed pgdir k va)
  unfolding page_remove
  page_remove-removed = elim (Bool-cases (present (k.mem pgdir (pdx va)))) [
    | inr e ↦ rw (pgdir_walk-absent e, e)
    | inl e ↦
        rw (pgdir_walk-found false e, e)
          (elim (Bool-cases (present w)) [
            | inr f ↦ rw f
            | inl f ↦ rw (
              f,
              pa2page_ok w (frame w) k refl (s.page_good (pdx va) (ptx va) (omega arith) e f).0,
            )
          ])
  ]
    where
      w : ℕ
      w = k.mem (table pgdir k.mem (pdx va)) (ptx va)

  pub removed-mem : (removed pgdir k va).mem ≡ (
      if present (entry pgdir k.mem va)
      then store k.mem (table pgdir k.mem (pdx va)) (ptx va) 0
      else k.mem)
  unfolding page_decref tlb_invalidate
  removed-mem = ground arith

  pub removed-frame : (removed pgdir k va).npage ≡ k.npage
  unfolding page_decref tlb_invalidate
  removed-frame = ground arith

  pub removed-free : (removed pgdir k va).page_free_list ≡ (
      if present (entry pgdir k.mem va)
        && u16 (k.refs (frame (entry pgdir k.mem va)) + 2 ^ 16 - 1) == 0
      then frame (entry pgdir k.mem va) ∷ k.page_free_list
      else k.page_free_list)
  unfolding page_decref tlb_invalidate
  removed-free = ground arith

  pub removed-refs :
      (p : ℕ)
      → (removed pgdir k va).refs p ≡ (
          if present (entry pgdir k.mem va) && frame (entry pgdir k.mem va) == p
          then u16 (k.refs p + 2 ^ 16 - 1)
          else k.refs p)
  unfolding page_decref tlb_invalidate
  removed-refs p = ground arith

  pub removed-root : (i : ℕ) → (removed pgdir k va).mem pgdir i ≡ k.mem pgdir i
  removed-root i = rw removed-mem (elim (Bool-cases (present (k.mem pgdir (pdx va)))) [
    | inr e ↦ rw e
    | inl e ↦ rw e (elim (Bool-cases (present (k.mem (table pgdir k.mem (pdx va)) (ptx va)))) [
      | inr f ↦ rw f
      | inl f ↦ rw f (root_same s va 0 low e i)
    ])
  ])

  pub removed-entry :
      (va' : ℕ)
      → va' < utop
      → entry pgdir (removed pgdir k va).mem va'
        ≡ (if present (entry pgdir k.mem va) && ppn va == ppn va' then 0 else entry pgdir k.mem va')
  removed-entry va' low' = rw removed-mem (elim (Bool-cases (present (k.mem pgdir (pdx va)))) [
    | inr e ↦ rw e
    | inl e ↦ rw e (elim (Bool-cases (present (k.mem (table pgdir k.mem (pdx va)) (ptx va)))) [
      | inr f ↦ rw f
      | inl f ↦ rw f (entry-store s va 0 low e va' low')
    ])
  ])

  pub removed-Space : Space pgdir (removed pgdir k va)
  removed-Space =
      rw (removed-frame, removed-mem, removed-free)
        (elim (Bool-cases (present (k.mem pgdir (pdx va)))) [
          | inr e ↦ rw e s
          | inl e ↦
              rw e (elim (Bool-cases (present (k.mem (table pgdir k.mem (pdx va)) (ptx va)))) [
                | inr f ↦ rw f s
                | inl f ↦ rw f (
                    free_if-IsSpace (store-IsSpace s va 0 low e (λ h. cc)) _ _
                      (s.page_good (pdx va) (ptx va) (omega arith) e f).1
                      (λ i b t eq.
                        (s.page_good (pdx va) (ptx va) (omega arith) e f).2 i b
                          (rw (root_same s va 0 low e i) at t)
                          (sym (rw (root_same s va 0 low e i) at eq))))
              ])
        ])

-- `page_remove` below UTOP never panics: it leaves nothing mapped at `va` and the entries of all
-- other pages as they were, keeps the address space well formed, drops one reference of the page
-- that was mapped, if there was one, and puts that page on the free list exactly when this was the
-- last reference.
pub page_remove_lem :
    (pgdir : ℕ) (k : Kernel) (va va' p : ℕ)
    → Space pgdir k
    → va < utop
    → va' < utop
    → (k' : Kernel) × (page_remove pgdir va k ≡ done tt k')
      × Space pgdir k'
      × (read_entry (entry pgdir k'.mem va')
          ≡ (if ppn va == ppn va' then none else read_entry (entry pgdir k.mem va')))
      × (k'.refs p ≡ (
          if present (entry pgdir k.mem va) && frame (entry pgdir k.mem va) == p
          then u16 (k.refs p + 2 ^ 16 - 1)
          else k.refs p))
      × (k'.page_free_list ≡ (
          if present (entry pgdir k.mem va) && k'.refs (frame (entry pgdir k.mem va)) == 0
          then frame (entry pgdir k.mem va) ∷ k.page_free_list
          else k.page_free_list))
page_remove_lem pgdir k va va' p s low low' = (
  removed pgdir k va,
  page_remove-removed pgdir k s va low,
  removed-Space pgdir k s va low,
  rw (removed-entry pgdir k s va low va' low') (ground (arith, entry_same_page pgdir k.mem va va')),
  removed-refs pgdir k s va low p,
  ground (
    arith,
    removed-free pgdir k s va low,
    removed-refs pgdir k s va low (frame (entry pgdir k.mem va)),
  ),
)
