-- ===== src/Kern/Pmap/Mapping/Fresh.antt =====
-- A fresh page table for an entry of the page directory, as `boot_pgdir_walk` of kern/pmap.c makes it.
use demo2s.Base.{
  ℕ, ◌+◌, ◌-◌, ◌*◌, ◌/◌, ◌^◌, ◌<◌, ◌≡◌, ◌≢◌, inl, inr, refl, ap, sym, ◌∙◌, true, false, done, ltb,
  u32, bit_or, update, update_self, update_other, arith, equal_or_not,
}
use demo2s.Kern.Mmu.{by2pg, ppn, pdx, present, kernbase, pte_w, pte_u, pte_p, mk_pte_lem}
use demo2s.Kern.Pmap.Mapping.{Boot, cleared, paddr, store, boot_table}
use demo2s.Kern.Pmap.Mapping.Memory.{
  next_page, InMemory, cleared_here, cleared_other, after_page, alloc_page,
}
use demo2s.Kern.Pmap.Mapping.Tables.{IsTable, IsBoot}

-- The state with a fresh table
pub fresh_table : ℕ → ℕ → Boot → Boot
fresh_table pgdir d s =
    store pgdir d (bit_or (bit_or (by2pg * next_page s) (pte_w + pte_u)) pte_p) (after_page s)

pub table_made :
    (end pgdir va : ℕ) (s : Boot)
    → InMemory s
    → next_page s < s.maxpa / by2pg
    → boot_table end pgdir va s ≡ done tt (fresh_table pgdir (pdx va) s)
unfolding boot_table paddr fresh_table
table_made end pgdir va s m room =
    let a = alloc_page end s m room in
    let k : ltb (kernbase + by2pg * next_page s) kernbase ≡ false = ground arith in
    let z : kernbase + by2pg * next_page s - kernbase ≡ by2pg * next_page s = omega arith in
    rw (boot_table, a, k, z) refl

pub fresh_word :
    (p : ℕ)
    → p < 2 ^ 16
    → (ppn (bit_or (bit_or (by2pg * p) (pte_w + pte_u)) pte_p) ≡ p)
      × (present (bit_or (bit_or (by2pg * p) (pte_w + pte_u)) pte_p) ≡ true)
fresh_word p lt =
    let e : by2pg * p ≡ u32 (p * 4096) = omega (arith, lt) in
    let v = mk_pte_lem p 6 (omega (arith, lt)) (omega arith) in
    let w : bit_or (bit_or (by2pg * p) (pte_w + pte_u)) pte_p ≡ p * 4096 + 6 / 2 * 2 + 1 =
      ap (λ x. bit_or (bit_or x (pte_w + pte_u)) pte_p) e ∙ v in
    (omega (arith, w), ground (arith, w))

pub maxpa_kept : (pgdir d : ℕ) (s : Boot) → (fresh_table pgdir d s).maxpa ≡ s.maxpa
unfolding fresh_table
maxpa_kept pgdir d s = refl

pub arrays_kept :
    (pgdir d : ℕ) (s : Boot)
    → ((fresh_table pgdir d s).pages ≡ s.pages) × ((fresh_table pgdir d s).envs ≡ s.envs)
unfolding fresh_table
arrays_kept pgdir d s = (refl, refl)

abbrev pub fresh_entry : Boot → ℕ
fresh_entry s = bit_or (bit_or (by2pg * next_page s) (pte_w + pte_u)) pte_p

module _ (pgdir d : ℕ) (s : Boot) (root : pgdir < next_page s) where
  pub new_entry : (fresh_table pgdir d s).mem pgdir d ≡ fresh_entry s
  unfolding fresh_table
  new_entry =
      let c = cleared by2pg (kernbase + by2pg * next_page s) s.mem in
      ap (λ f. f d) (update_self c pgdir (update (c pgdir) d (fresh_entry s)))
      ∙ update_self (c pgdir) d (fresh_entry s)

  pub other_entry : (e : ℕ) → e < 1024 → e ≢ d → (fresh_table pgdir d s).mem pgdir e ≡ s.mem pgdir e
  unfolding fresh_table
  other_entry e lt ne =
      let c = cleared by2pg (kernbase + by2pg * next_page s) s.mem in
      ap (λ f. f e) (update_self c pgdir (update (c pgdir) d (fresh_entry s)))
      ∙ update_other (c pgdir) d e (fresh_entry s) (λ z. ne (sym z))
      ∙ cleared_other s.mem (next_page s) pgdir e lt (λ z. omega (arith, z, root))

  pub other_page :
      (p i : ℕ)
      → i < 1024
      → p ≢ pgdir
      → p ≢ next_page s
      → (fresh_table pgdir d s).mem p i ≡ s.mem p i
  unfolding fresh_table
  other_page p i lt np nt =
      let c = cleared by2pg (kernbase + by2pg * next_page s) s.mem in
      ap (λ f. f i) (update_other c pgdir p (update (c pgdir) d (fresh_entry s)) (λ z. np (sym z)))
      ∙ cleared_other s.mem (next_page s) p i lt nt

  pub table_page : (i : ℕ) → i < 1024 → (fresh_table pgdir d s).mem (next_page s) i ≡ 0
  unfolding fresh_table
  table_page i lt =
      let c = cleared by2pg (kernbase + by2pg * next_page s) s.mem in
      ap (λ f. f i)
        (update_other c pgdir (next_page s) (update (c pgdir) d (fresh_entry s))
          (λ z. omega (arith, z, root)))
      ∙ cleared_here s.mem (next_page s) i lt

  pub next_fresh : next_page (fresh_table pgdir d s) ≡ next_page s + 1
  unfolding fresh_table
  next_fresh = omega arith

  -- Where the entry was absent, the invariant is kept.
  module _ (b : IsBoot pgdir s) (room : next_page s < s.maxpa / by2pg)
      (absent : present (s.mem pgdir d) ≡ false) where
    private_word : (ppn (fresh_entry s) ≡ next_page s) × (present (fresh_entry s) ≡ true)
    private_word = fresh_word (next_page s) (omega (arith, room, b.memory.small))

    pub ppn_new : ppn ((fresh_table pgdir d s).mem pgdir d) ≡ next_page s
    ppn_new = ap ppn new_entry ∙ private_word.0

    ppn_other :
        (e : ℕ) → e < 1024 → e ≢ d → ppn ((fresh_table pgdir d s).mem pgdir e) ≡ ppn (s.mem pgdir e)
    ppn_other e lt ne = ap ppn (other_entry e lt ne)

    present_other :
        (e : ℕ)
        → e < 1024
        → e ≢ d
        → present ((fresh_table pgdir d s).mem pgdir e) ≡ true
        → present (s.mem pgdir e) ≡ true
    present_other e lt ne p = sym (ap present (other_entry e lt ne)) ∙ p

    at_fresh : (e : ℕ) → e ≡ d → ppn ((fresh_table pgdir d s).mem pgdir e) ≡ next_page s
    at_fresh e z = ap (λ x. ppn ((fresh_table pgdir d s).mem pgdir x)) z ∙ ppn_new

    old_table :
        (e : ℕ)
        → IsTable e
        → e ≢ d
        → present ((fresh_table pgdir d s).mem pgdir e) ≡ true
        → (ppn ((fresh_table pgdir d s).mem pgdir e) < next_page s)
          × (ppn ((fresh_table pgdir d s).mem pgdir e) ≢ pgdir)
    old_table e ie ne p =
        let (lt, np) = b.table e ie (present_other e ie.0 ne p) in
        (omega (arith, lt, ppn_other e ie.0 ne), λ z. np (sym (ppn_other e ie.0 ne) ∙ z))

    fresh-InMemory : InMemory (fresh_table pgdir d s)
    unfolding fresh_table
    fresh-InMemory = record {
      above = omega arith;
      small = b.memory.small;
      below = omega (arith, room);
    }

    pub fresh-IsBoot : IsBoot pgdir (fresh_table pgdir d s)
    fresh-IsBoot = record {
      memory = fresh-InMemory;
      limit = omega (arith, next_fresh, room, same_maxpa);
      root = omega (arith, next_fresh, root);
      table = λ e ie p. elim (equal_or_not e d) [
        | inl z ↦
            let q = at_fresh e z in (omega (arith, q, next_fresh), λ h. omega (arith, h, q, root))
        | inr ne ↦ let (lt, np) = old_table e ie ne p in (omega (arith, lt, next_fresh), np)
      ];
      own = λ e f ie if' pe pf same. elim (equal_or_not e d) [
        | inl z ↦ elim (equal_or_not f d) [
          | inl y ↦ z ∙ sym y
          | inr nf ↦
              let q = at_fresh e z in
              let (lt, np) = old_table f if' nf pf in absurd (omega (arith, lt, q, same))
        ]
        | inr ne ↦ elim (equal_or_not f d) [
          | inl y ↦
              let q = at_fresh f y in
              let (lt, np) = old_table e ie ne pe in absurd (omega (arith, lt, q, same))
          | inr nf ↦
              b.own e f ie if' (present_other e ie.0 ne pe) (present_other f if'.0 nf pf)
                (sym (ppn_other e ie.0 ne) ∙ same ∙ ppn_other f if'.0 nf)
        ]
      ];
    }
      where
        same_maxpa : (fresh_table pgdir d s).maxpa ≡ s.maxpa
        same_maxpa = maxpa_kept pgdir d s
