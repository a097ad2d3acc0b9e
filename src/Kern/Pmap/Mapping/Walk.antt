-- ===== src/Kern/Pmap/Mapping/Walk.antt =====
-- `boot_pgdir_walk` of kern/pmap.c, with a table that is there or a fresh one.
use demo2s.Base.{
  ℕ, ◌/◌, ◌<◌, ◌≡◌, ◌⊎◌, inl, inr, ap, ◌∙◌, true, false, Bool-cases, some, done, if_false, arith,
  and_then,
}
use demo2s.Kern.Mmu.{by2pg, ppn, pdx, present}
use demo2s.Kern.Pmap.Mapping.{Boot, boot_table, boot_entry, boot_pgdir_walk}
use demo2s.Kern.Pmap.Mapping.Memory.{next_page}
use demo2s.Kern.Pmap.Mapping.Tables.{IsTable, IsBoot, Walked, entry_found, walk_old}
use demo2s.Kern.Pmap.Mapping.Fresh.{
  fresh_table, table_made, fresh_word, maxpa_kept, arrays_kept, new_entry, other_entry, other_page,
  table_page, next_fresh, ppn_new, fresh-IsBoot,
}

walk_made :
    (end pgdir va t : ℕ) (s s' : Boot)
    → present (s.mem pgdir (pdx va)) ≡ false
    → boot_table end pgdir va s ≡ done tt s'
    → boot_entry pgdir va s' ≡ done (some t) s'
    → boot_pgdir_walk end pgdir va true s ≡ done (some t) s'
unfolding boot_pgdir_walk
walk_made end pgdir va t s s' p made found =
    if_false (present (s.mem pgdir (pdx va))) (boot_entry pgdir va s)
      (and_then (boot_table end pgdir va s) (λ _. boot_entry pgdir va)) p
    ∙ ap (λ r. and_then r (λ _. boot_entry pgdir va)) made
    ∙ found

walk_new :
    (end pgdir va : ℕ) (s : Boot)
    → IsBoot pgdir s
    → IsTable (pdx va)
    → present (s.mem pgdir (pdx va)) ≡ false
    → next_page s < s.maxpa / by2pg
    → (t : ℕ) × (s' : Boot) × (boot_pgdir_walk end pgdir va true s ≡ done (some t) s')
      × Walked pgdir (pdx va) s t s'
walk_new end pgdir va s b d p room =
    let s' = fresh_table pgdir (pdx va) s in
    let made = table_made end pgdir va s b.memory room in
    let page = ppn_new pgdir (pdx va) s b.root b room p in
    let there =
      ap present (new_entry pgdir (pdx va) s b.root)
      ∙ (fresh_word (next_page s) (omega (arith, room, b.memory.small))).1 in
    let m = maxpa_kept pgdir (pdx va) s in
    let found = entry_found pgdir va (next_page s) s' page (omega (arith, room, m)) in
    (
      next_page s,
      s',
      walk_made end pgdir va (next_page s) s s' p made found,
      record {
        boot = fresh-IsBoot pgdir (pdx va) s b.root b room p;
        there = there;
        page = page;
        directory = λ e lt ne. other_entry pgdir (pdx va) s b.root e lt ne;
        same = λ e i ie lt pe.
            let (below, np) = b.table e ie pe in
            other_page pgdir (pdx va) s b.root (ppn (s.mem pgdir e)) i lt np
              (λ z. omega (arith, z, below));
        old = λ p'. absurd (cc);
        fresh = λ p'.
            (next_fresh pgdir (pdx va) s b.root, λ i lt. table_page pgdir (pdx va) s b.root i lt);
        kept_maxpa = m;
        kept_arrays = arrays_kept pgdir (pdx va) s;
      },
    )

-- The walk always succeeds where there is room for one more table, or none is needed.
pub boot_pgdir_walk-Walked :
    (end pgdir va : ℕ) (s : Boot)
    → IsBoot pgdir s
    → IsTable (pdx va)
    → (present (s.mem pgdir (pdx va)) ≡ true) ⊎ (next_page s < s.maxpa / by2pg)
    → (t : ℕ) × (s' : Boot) × (boot_pgdir_walk end pgdir va true s ≡ done (some t) s')
      × Walked pgdir (pdx va) s t s'
boot_pgdir_walk-Walked end pgdir va s b d (inl p) = walk_old end pgdir va s b d p
boot_pgdir_walk-Walked end pgdir va s b d (inr room) =
    elim (Bool-cases (present (s.mem pgdir (pdx va)))) [
      | inl p ↦ walk_old end pgdir va s b d p
      | inr p ↦ walk_new end pgdir va s b d p room
    ]
