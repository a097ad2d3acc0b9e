-- ===== src/Kern/Pmap/Mapping/Tables.antt =====
-- `boot_pgdir_walk` of kern/pmap.c, for the entries of the page directory that are not the two self maps.
use demo2s.Base.{
  ℕ, ◌+◌, ◌/◌, ◌≤◌, ◌<◌, ◌≡◌, ◌≢◌, refl, ◌∙◌, true, false, some, done, leb, if_true, arith,
}
use demo2s.Kern.Mmu.{by2pg, ppn, pdx, pte_addr, present, vpt, uvpt}
use demo2s.Kern.Pmap.Mapping.{Boot, boot_kaddr, boot_entry, boot_pgdir_walk}
use demo2s.Kern.Pmap.Mapping.Memory.{next_page, InMemory}

abbrev pub IsTable : ℕ → Type 0
IsTable d = (d < 1024) × (d ≢ pdx vpt) × (d ≢ pdx uvpt)

-- The directory's tables are pages in use, different ones, and not the directory.
pub record IsBoot (pgdir : ℕ) (s : Boot) : Type 0 where
  pub memory : InMemory s
  pub limit : next_page s ≤ s.maxpa / by2pg
  pub root : pgdir < next_page s
  pub table :
      (d : ℕ)
      → IsTable d
      → present (s.mem pgdir d) ≡ true
      → (ppn (s.mem pgdir d) < next_page s) × (ppn (s.mem pgdir d) ≢ pgdir)
  pub own :
      (d e : ℕ)
      → IsTable d
      → IsTable e
      → present (s.mem pgdir d) ≡ true
      → present (s.mem pgdir e) ≡ true
      → ppn (s.mem pgdir d) ≡ ppn (s.mem pgdir e)
      → d ≡ e

-- The table for `d` is page t, after as few changes as that takes.
pub record Walked (pgdir d : ℕ) (s : Boot) (t : ℕ) (s' : Boot) : Type 0 where
  pub boot : IsBoot pgdir s'
  pub there : present (s'.mem pgdir d) ≡ true
  pub page : ppn (s'.mem pgdir d) ≡ t
  pub directory : (e : ℕ) → e < 1024 → e ≢ d → s'.mem pgdir e ≡ s.mem pgdir e
  pub same :
      (e i : ℕ)
      → IsTable e
      → i < 1024
      → present (s.mem pgdir e) ≡ true
      → s'.mem (ppn (s.mem pgdir e)) i ≡ s.mem (ppn (s.mem pgdir e)) i
  pub old :
      present (s.mem pgdir d) ≡ true → (ppn (s.mem pgdir d) ≡ t) × (next_page s' ≡ next_page s)
  pub fresh :
      present (s.mem pgdir d) ≡ false
      → (next_page s' ≡ next_page s + 1) × ((i : ℕ) → i < 1024 → s'.mem t i ≡ 0)
  pub kept_maxpa : s'.maxpa ≡ s.maxpa
  pub kept_arrays : (s'.pages ≡ s.pages) × (s'.envs ≡ s.envs)

pub entry_found :
    (pgdir va t : ℕ) (s : Boot)
    → ppn (s.mem pgdir (pdx va)) ≡ t
    → t < s.maxpa / by2pg
    → boot_entry pgdir va s ≡ done (some t) s
unfolding boot_entry boot_kaddr
entry_found pgdir va t s e lt =
    let p : ppn (pte_addr (s.mem pgdir (pdx va))) ≡ t = omega (arith, e) in
    let g : leb (s.maxpa / by2pg) t ≡ false = ground (arith, lt) in
    rw (boot_entry, boot_kaddr, p, g) refl

pub walk_old :
    (end pgdir va : ℕ) (s : Boot)
    → IsBoot pgdir s
    → IsTable (pdx va)
    → present (s.mem pgdir (pdx va)) ≡ true
    → (t : ℕ) × (s' : Boot) × (boot_pgdir_walk end pgdir va true s ≡ done (some t) s')
      × Walked pgdir (pdx va) s t s'
unfolding boot_pgdir_walk
walk_old end pgdir va s b d p =
    let t = ppn (s.mem pgdir (pdx va)) in
    let (lt, ne) = b.table (pdx va) d p in
    (
      t,
      s,
      if_true (present (s.mem pgdir (pdx va))) (boot_entry pgdir va s) _ p
          ∙ entry_found pgdir va t s refl (omega (arith, lt, b.limit)),
      record {
        boot = b;
        there = p;
        page = refl;
        directory = λ e lt' ne'. refl;
        same = λ e i d' lt' p'. refl;
        old = λ p'. (refl, refl);
        fresh = λ p'. absurd (cc);
        kept_maxpa = refl;
        kept_arrays = (refl, refl);
      },
    )
