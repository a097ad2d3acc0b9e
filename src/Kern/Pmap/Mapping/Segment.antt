-- ===== src/Kern/Pmap/Mapping/Segment.antt =====
-- `boot_map_segment` of kern/pmap.c as a change of the entries that addresses are looked up by.
use demo2s.Base.{
  ℕ, suc, ◌+◌, ◌/◌, ◌≤◌, ◌<◌, ◌≡◌, ◌≢◌, ◌⊎◌, inl, inr, refl, ap, sym, subst, ◌∙◌, Bool, true, false,
  Bool-cases, some, done, if_true, if_false, if◌then◌else◌, update, update_self, update_other,
  arith, equal_or_not,
}
use demo2s.Kern.Mmu.{by2pg, ppn, pdx, ptx, present}
use demo2s.Kern.Pmap.Mapping.{Boot, store, boot_pgdir_walk}
use demo2s.Kern.Pmap.Mapping.Memory.{next_page}
use demo2s.Kern.Pmap.Mapping.Walk.{boot_pgdir_walk-Walked}
use demo2s.Kern.Pmap.Mapping.Tables.{IsTable, IsBoot, Walked}

-- The entry for an address, 0 where there is no table
abbrev pub entry_of : ℕ → Boot → ℕ → ℕ
entry_of pgdir s va =
    if present (s.mem pgdir (pdx va)) then s.mem (ppn (s.mem pgdir (pdx va))) (ptx va) else 0

abbrev pub credit : Bool → ℕ
credit true = 1
credit false = 0

-- Room for every table that n pages from `va` on may still need, below page l
abbrev pub Enough : ℕ → ℕ → ℕ → ℕ → Boot → Type 0
Enough pgdir l n va s =
    next_page s + (ptx va + n + 1023) / 1024 ≤ l + credit (present (s.mem pgdir (pdx va)))

stored_page : (t i w p j : ℕ) (s : Boot) → p ≢ t → (store t i w s).mem p j ≡ s.mem p j
stored_page t i w p j s ne =
    ap (λ f. f j) (update_other s.mem t p (update (s.mem t) i w) (λ z. ne (sym z)))

stored_here : (t i w : ℕ) (s : Boot) → (store t i w s).mem t i ≡ w
stored_here t i w s =
    ap (λ f. f i) (update_self s.mem t (update (s.mem t) i w)) ∙ update_self (s.mem t) i w

pub stored_beside : (t i w j : ℕ) (s : Boot) → j ≢ i → (store t i w s).mem t j ≡ s.mem t j
stored_beside t i w j s ne =
    ap (λ f. f j) (update_self s.mem t (update (s.mem t) i w))
    ∙ update_other (s.mem t) i j w (λ z. ne (sym z))

store-IsBoot :
    (pgdir t i w : ℕ) (s : Boot) → t ≢ pgdir → IsBoot pgdir s → IsBoot pgdir (store t i w s)
store-IsBoot pgdir t i w s ne b =
    let e : (d : ℕ) → (store t i w s).mem pgdir d ≡ s.mem pgdir d =
      λ d. stored_page t i w pgdir d s (λ z. ne (sym z)) in
    record {
      memory = record { above = b.memory.above; small = b.memory.small; below = b.memory.below };
      limit = b.limit;
      root = b.root;
      table = λ d id p.
          let (lt, np) = b.table d id (sym (ap present (e d)) ∙ p) in
          (omega (arith, lt, ap ppn (e d)), λ z. np (sym (ap ppn (e d)) ∙ z));
      own = λ d f id if' pd pf same.
          b.own d f id if' (sym (ap present (e d)) ∙ pd) (sym (ap present (e f)) ∙ pf)
            (sym (ap ppn (e d)) ∙ same ∙ ap ppn (e f));
    }

-- An entry of a table that is there
pub entry_there :
    (pgdir va t : ℕ) (s : Boot)
    → present (s.mem pgdir (pdx va)) ≡ true
    → ppn (s.mem pgdir (pdx va)) ≡ t
    → entry_of pgdir s va ≡ s.mem t (ptx va)
entry_there pgdir va t s p e =
    if_true (present (s.mem pgdir (pdx va))) (s.mem (ppn (s.mem pgdir (pdx va))) (ptx va)) 0 p
    ∙ ap (λ q. s.mem q (ptx va)) e

pub entry_absent :
    (pgdir va : ℕ) (s : Boot) → present (s.mem pgdir (pdx va)) ≡ false → entry_of pgdir s va ≡ 0
entry_absent pgdir va s p =
    if_false (present (s.mem pgdir (pdx va))) (s.mem (ppn (s.mem pgdir (pdx va))) (ptx va)) 0 p

module _ (pgdir va w : ℕ) (s s1 : Boot) (t : ℕ) (b : IsBoot pgdir s) (d : IsTable (pdx va))
    (h : Walked pgdir (pdx va) s t s1) where
  table_lem : (t < next_page s1) × (t ≢ pgdir)
  table_lem =
      let (lt, ne) = h.boot.table (pdx va) d h.there in
      (omega (arith, lt, h.page), λ z. ne (h.page ∙ z))

  directory_kept : (e : ℕ) → (store t (ptx va) w s1).mem pgdir e ≡ s1.mem pgdir e
  directory_kept e = stored_page t (ptx va) w pgdir e s1 (λ z. table_lem.1 (sym z))

  entry_written : entry_of pgdir (store t (ptx va) w s1) va ≡ w
  entry_written =
      let e = directory_kept (pdx va) in
      entry_there pgdir va t (store t (ptx va) w s1) (ap present e ∙ h.there) (ap ppn e ∙ h.page)
      ∙ stored_here t (ptx va) w s1

  -- In the same table
  entry_beside :
      (x : ℕ)
      → pdx x ≡ pdx va
      → ptx x ≢ ptx va
      → entry_of pgdir (store t (ptx va) w s1) x ≡ entry_of pgdir s x
  entry_beside x same ne =
      let e = directory_kept (pdx x) in
      let there : present (s1.mem pgdir (pdx x)) ≡ true =
        ap (λ i. present (s1.mem pgdir i)) same ∙ h.there in
      let page : ppn (s1.mem pgdir (pdx x)) ≡ t = ap (λ i. ppn (s1.mem pgdir i)) same ∙ h.page in
      entry_there pgdir x t (store t (ptx va) w s1) (ap present e ∙ there) (ap ppn e ∙ page)
      ∙ stored_beside t (ptx va) w (ptx x) s1 ne
      ∙ before (Bool-cases (present (s.mem pgdir (pdx x))))
    where
      before :
          (present (s.mem pgdir (pdx x)) ≡ true) ⊎ (present (s.mem pgdir (pdx x)) ≡ false)
          → s1.mem t (ptx x) ≡ entry_of pgdir s x
      before (inl p) =
          let p' : present (s.mem pgdir (pdx va)) ≡ true =
            ap (λ i. present (s.mem pgdir i)) (sym same) ∙ p in
          let o : ppn (s.mem pgdir (pdx x)) ≡ t =
            ap (λ i. ppn (s.mem pgdir i)) same ∙ (h.old p').0 in
          ap (λ q. s1.mem q (ptx x)) (sym o)
          ∙ h.same (pdx x) (ptx x) (subst IsTable (sym same) d) (omega arith) p
          ∙ sym (entry_there pgdir x (ppn (s.mem pgdir (pdx x))) s p refl)
      before (inr p) =
          let p' : present (s.mem pgdir (pdx va)) ≡ false =
            ap (λ i. present (s.mem pgdir i)) (sym same) ∙ p in
          (h.fresh p').1 (ptx x) (omega arith) ∙ sym (entry_absent pgdir x s p)

  -- In another table
  entry_elsewhere :
      (x : ℕ)
      → IsTable (pdx x)
      → pdx x ≢ pdx va
      → entry_of pgdir (store t (ptx va) w s1) x ≡ entry_of pgdir s x
  entry_elsewhere x dx ne = by_case (Bool-cases (present (s.mem pgdir (pdx x))))
    where
      eq : (store t (ptx va) w s1).mem pgdir (pdx x) ≡ s.mem pgdir (pdx x)
      eq = directory_kept (pdx x) ∙ h.directory (pdx x) dx.0 ne

      by_case :
          (present (s.mem pgdir (pdx x)) ≡ true) ⊎ (present (s.mem pgdir (pdx x)) ≡ false)
          → entry_of pgdir (store t (ptx va) w s1) x ≡ entry_of pgdir s x
      by_case (inl p) =
          let same = h.directory (pdx x) dx.0 ne in
          let other : ppn (s.mem pgdir (pdx x)) ≢ t = λ z. ne (
            h.boot.own (pdx x) (pdx va) dx d (ap present same ∙ p) h.there
              (ap ppn same ∙ z ∙ sym h.page)) in
          entry_there pgdir x (ppn (s.mem pgdir (pdx x))) (store t (ptx va) w s1)
            (ap present eq ∙ p) (ap ppn eq)
          ∙ stored_page t (ptx va) w (ppn (s.mem pgdir (pdx x))) (ptx x) s1 other
          ∙ h.same (pdx x) (ptx x) dx (omega arith) p
          ∙ sym (entry_there pgdir x (ppn (s.mem pgdir (pdx x))) s p refl)
      by_case (inr p) =
          entry_absent pgdir x (store t (ptx va) w s1) (ap present eq ∙ p)
          ∙ sym (entry_absent pgdir x s p)

  entry_other :
      (x : ℕ)
      → IsTable (pdx x)
      → (pdx x ≢ pdx va) ⊎ (ptx x ≢ ptx va)
      → entry_of pgdir (store t (ptx va) w s1) x ≡ entry_of pgdir s x
  entry_other x dx out = elim (equal_or_not (pdx x) (pdx va)) [
    | inl same ↦ entry_beside x same (another same out)
    | inr ne ↦ entry_elsewhere x dx ne
  ]
    where
      another : pdx x ≡ pdx va → (pdx x ≢ pdx va) ⊎ (ptx x ≢ ptx va) → ptx x ≢ ptx va
      another same (inl ne) = absurd (ne same)
      another same (inr ne) = ne

-- One turn of the loop: the entry is written, no other one changes, and there is still room.
pub record Turned (pgdir l n va w : ℕ) (s s2 : Boot) : Type 0 where
  pub boot : IsBoot pgdir s2
  pub written : entry_of pgdir s2 va ≡ w
  pub others :
      (x : ℕ)
      → IsTable (pdx x)
      → (pdx x ≢ pdx va) ⊎ (ptx x ≢ ptx va)
      → entry_of pgdir s2 x ≡ entry_of pgdir s x
  pub enough : 0 < n → Enough pgdir l n (va + by2pg) s2
  pub bounded : next_page s2 ≤ l
  pub same_maxpa : s2.maxpa ≡ s.maxpa
  pub same_arrays : (s2.pages ≡ s.pages) × (s2.envs ≡ s.envs)
  pub grown : next_page s ≤ next_page s2

-- The next page's table is the one just used, or the room for it is left.
room_left :
    (pgdir l n va next_s : ℕ) (s2 : Boot) (p : Bool)
    → next_s + (ptx va + suc n + 1023) / 1024 ≤ l + credit p
    → next_page s2 + credit p ≡ next_s + 1
    → present (s2.mem pgdir (pdx va)) ≡ true
    → Enough pgdir l n (va + by2pg) s2
room_left pgdir l n va next_s s2 p e u there = by_case (equal_or_not (ptx va) 1023)
  where
    by_case : (ptx va ≡ 1023) ⊎ (ptx va ≢ 1023) → Enough pgdir l n (va + by2pg) s2
    by_case (inl z) =
        let y : ptx (va + by2pg) ≡ 0 = omega (arith, z) in
        let left : next_page s2 + (0 + n + 1023) / 1024 ≤ l = omega (arith, e, u, z) in
        omega (arith, left, y)
    by_case (inr ne) =
        let i : pdx (va + by2pg) ≡ pdx va = omega (arith, ne) in
        let y : ptx (va + by2pg) ≡ ptx va + 1 = omega (arith, ne) in
        let c : credit (present (s2.mem pgdir (pdx (va + by2pg)))) ≡ 1 =
          ap (λ j. credit (present (s2.mem pgdir j))) i ∙ ap credit there in
        let left : next_page s2 + (ptx va + 1 + n + 1023) / 1024 ≤ l + 1 = omega (arith, e, u) in
        omega (arith, left, y, c)

used : (q : Bool) (a b : ℕ) → (q ≡ true → a ≡ b) → (q ≡ false → a ≡ b + 1) → a + credit q ≡ b + 1
used true a b o f = omega (arith, o refl)
used false a b o f = omega (arith, f refl)

room_for :
    (q : Bool) (a l t npage : ℕ)
    → a + t ≤ l + credit q
    → 1 ≤ t
    → l ≤ npage
    → (q ≡ true) ⊎ (a < npage)
room_for true a l t npage e one le = inl refl
room_for false a l t npage e one le = inr (omega (arith, e, one, le))

within : (q : Bool) (a b l t : ℕ) → b + t ≤ l + credit q → 1 ≤ t → a + credit q ≡ b + 1 → a ≤ l
within q a b l t e one u = omega (arith, e, one, u)

more : (q : Bool) (a b : ℕ) → a + credit q ≡ b + 1 → b ≤ a
more true a b u = omega (arith, u)
more false a b u = omega (arith, u)

pub turn :
    (end pgdir l n va w : ℕ) (s : Boot)
    → IsBoot pgdir s
    → IsTable (pdx va)
    → l ≤ s.maxpa / by2pg
    → Enough pgdir l (suc n) va s
    → (t : ℕ) × (s1 : Boot) × (boot_pgdir_walk end pgdir va true s ≡ done (some t) s1)
      × Turned pgdir l n va w s (store t (ptx va) w s1)
turn end pgdir l n va w s b d le e =
    let p = present (s.mem pgdir (pdx va)) in
    let tables = (ptx va + suc n + 1023) / 1024 in
    let one : 1 ≤ tables = omega arith in
    let (t, s1, run, h) =
      boot_pgdir_walk-Walked end pgdir va s b d
        (room_for p (next_page s) l tables (s.maxpa / by2pg) e one le) in
    let u = used p (next_page s1) (next_page s) (λ q. (h.old q).1) (λ q. (h.fresh q).0) in
    (
      t,
      s1,
      run,
      record {
        boot = store-IsBoot pgdir t (ptx va) w s1 (table_lem pgdir va w s s1 t b d h).1 h.boot;
        written = entry_written pgdir va w s s1 t b d h;
        others = λ x dx out. entry_other pgdir va w s s1 t b d h x dx out;
        enough = λ pos.
            room_left pgdir l n va (next_page s) (store t (ptx va) w s1) p e u
              (ap present (directory_kept pgdir va w s s1 t b d h (pdx va)) ∙ h.there);
        bounded = within p (next_page s1) (next_page s) l tables e one u;
        same_maxpa = h.kept_maxpa;
        same_arrays = h.kept_arrays;
        grown = more p (next_page s1) (next_page s) u;
      },
    )
