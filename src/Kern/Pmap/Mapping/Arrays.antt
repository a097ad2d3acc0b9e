-- ===== src/Kern/Pmap/Mapping/Arrays.antt =====
-- The arrays that kern/pmap.c allocates before there are pages, and their image in the user's part of the
-- address space.
use demo2s.Base.{
  ℕ, ◌+◌, ◌-◌, ◌*◌, ◌/◌, ◌%◌, ◌^◌, ◌≤◌, ◌<◌, ◌≡◌, ◌⊎◌, inl, inr, refl, ap, sym, ◌∙◌, true, false,
  Bool-cases, ◌||◌, done, panic, ltb, if_false, u32, arith,
}
use demo2s.Kern.Mmu.{by2pg, ppn, pdx, ptx, present, kernbase, pte_p, pte_w, pte_u}
use demo2s.Kern.Pmap.Mapping.{
  Boot, Array, keep_array, cleared, chunk, give, alloc, paddr, boot_map_segment, map_array,
}
use demo2s.Kern.Pmap.Mapping.Memory.{next_page, InMemory, chunk_page}
use demo2s.Kern.Pmap.Mapping.Tables.{IsTable, IsBoot}
use demo2s.Kern.Pmap.Mapping.Segment.{entry_of, entry_there, entry_absent}
use demo2s.Kern.Pmap.Mapping.Loop.{Laid, Tabled, pages_of, tables_of, boot_map_segment-Laid}

after_array : ℕ → Boot → Boot
after_array n s = record s {
  freemem = kernbase + by2pg * next_page s + n;
  mem = cleared n (kernbase + by2pg * next_page s) s.mem;
}

array_at :
    (end n v f : ℕ) (s : Boot)
    → chunk end by2pg s ≡ v
    → u32 (v + n) ≡ f
    → (ltb (u32 (kernbase + s.maxpa)) f || ltb f v) ≡ false
    → alloc end n by2pg true s ≡ done v (record s { freemem = f; mem = cleared n v s.mem })
unfolding alloc
array_at end n v f s ev ef g =
    ap (λ x. give n true x (u32 (x + n)) s) ev
    ∙ ap (λ x. give n true v x s) ef
    ∙ if_false (ltb (u32 (kernbase + s.maxpa)) f || ltb f v) panic
        (done v (record s { freemem = f; mem = cleared n v s.mem })) g

array_fits : (v f last : ℕ) → v ≤ f → f ≤ last → (ltb last f || ltb f v) ≡ false
array_fits v f last le ge = ground (arith, le, ge)

module _ (n : ℕ) (s : Boot) (pos : 0 < n) (m : InMemory s)
    (room : next_page s + pages_of n ≤ s.maxpa / by2pg) where
  array_allocated :
      (end : ℕ) → alloc end n by2pg true s ≡ done (kernbase + by2pg * next_page s) (after_array n s)
  unfolding after_array
  array_allocated end =
      let last : u32 (kernbase + s.maxpa) ≡ kernbase + s.maxpa = omega (arith, m.small) in
      array_at end n (kernbase + by2pg * next_page s) (kernbase + by2pg * next_page s + n) s
        (chunk_page end s m (omega (arith, room, pos))) (omega (arith, room, m.small))
        (array_fits (kernbase + by2pg * next_page s) (kernbase + by2pg * next_page s + n)
          (u32 (kernbase + s.maxpa)) (omega arith) (omega (arith, last, room)))

  -- Pages before the array do not change.
  page_before : (p i : ℕ) → i < 1024 → p < next_page s → (after_array n s).mem p i ≡ s.mem p i
  unfolding after_array
  page_before p i lt below = ground (arith, lt, below)

  array_next : next_page (after_array n s) ≡ next_page s + pages_of n
  unfolding after_array
  array_next = omega arith

  array_maxpa : (after_array n s).maxpa ≡ s.maxpa
  unfolding after_array
  array_maxpa = refl

  array_memory : InMemory (after_array n s)
  unfolding after_array
  array_memory = record { above = omega (arith, pos); small = m.small; below = omega (arith, room) }

  module _ (pgdir : ℕ) (b : IsBoot pgdir s) where
    array-IsBoot : IsBoot pgdir (after_array n s)
    array-IsBoot =
        let e : (d : ℕ) → d < 1024 → (after_array n s).mem pgdir d ≡ s.mem pgdir d =
          λ d lt. page_before pgdir d lt b.root in
        record {
          memory = array_memory;
          limit = omega (arith, array_next, array_maxpa, room);
          root = omega (arith, array_next, b.root);
          table = λ d id p.
              let (lt, np) = b.table d id (sym (ap present (e d id.0)) ∙ p) in
              (
                omega (arith, lt, ap ppn (e d id.0), array_next),
                λ z. np (sym (ap ppn (e d id.0)) ∙ z),
              );
          own = λ d f id if' pd pf same.
              b.own d f id if' (sym (ap present (e d id.0)) ∙ pd)
                (sym (ap present (e f if'.0)) ∙ pf)
                (sym (ap ppn (e d id.0)) ∙ same ∙ ap ppn (e f if'.0));
        }

    array_entry :
        (x : ℕ) → IsTable (pdx x) → entry_of pgdir (after_array n s) x ≡ entry_of pgdir s x
    array_entry x dx = by_case (Bool-cases (present (s.mem pgdir (pdx x))))
      where
        e : (after_array n s).mem pgdir (pdx x) ≡ s.mem pgdir (pdx x)
        e = page_before pgdir (pdx x) (omega arith) b.root

        by_case :
            (present (s.mem pgdir (pdx x)) ≡ true) ⊎ (present (s.mem pgdir (pdx x)) ≡ false)
            → entry_of pgdir (after_array n s) x ≡ entry_of pgdir s x
        by_case (inl p) =
            entry_there pgdir x (ppn (s.mem pgdir (pdx x))) (after_array n s) (ap present e ∙ p)
              (ap ppn e)
            ∙ page_before (ppn (s.mem pgdir (pdx x))) (ptx x) (omega arith) (b.table (pdx x) dx p).0
            ∙ sym (entry_there pgdir x (ppn (s.mem pgdir (pdx x))) s p refl)
        by_case (inr p) =
            entry_absent pgdir x (after_array n s) (ap present e ∙ p)
            ∙ sym (entry_absent pgdir x s p)

kept_array-IsBoot :
    (a : Array) (v pgdir : ℕ) (s : Boot) → IsBoot pgdir s → IsBoot pgdir (keep_array a v s)
kept_array-IsBoot a v pgdir s b = record {
  memory = record { above = b.memory.above; small = b.memory.small; below = b.memory.below };
  limit = b.limit;
  root = b.root;
  table = b.table;
  own = b.own;
}

array_run :
    (end pgdir n : ℕ) (a : Array) (va : ℕ) (s s1 s' : Boot)
    → alloc end n by2pg true s ≡ done (kernbase + by2pg * next_page s) s1
    → boot_map_segment end pgdir va n
        (by2pg * next_page s)
        (pte_w + pte_u + pte_p)
        (keep_array a (kernbase + by2pg * next_page s) s1)
      ≡ done tt s'
    → map_array end pgdir n a va s ≡ done tt s'
unfolding map_array paddr
array_run end pgdir n a va s s1 s' made e =
    let k : ltb (kernbase + by2pg * next_page s) kernbase ≡ false = ground arith in
    let z : kernbase + by2pg * next_page s - kernbase ≡ by2pg * next_page s = omega arith in
    rw (map_array, made, k, z, e) refl

-- `map_array` gives the array pages of its own, to which its pointer is set, and shows them at `va`, where
-- the user may write them.
pub map_array-Laid :
    (end pgdir n : ℕ) (a : Array) (va : ℕ) (s : Boot)
    → IsBoot pgdir s
    → 0 < n
    → va % by2pg ≡ 0
    → va + by2pg * pages_of n ≤ 2 ^ 32
    → Tabled (pages_of n) va
    → next_page s + pages_of n + tables_of va n ≤ s.maxpa / by2pg
    → (s' : Boot) × (map_array end pgdir n a va s ≡ done tt s')
      × (next_page s + pages_of n ≤ next_page s')
      × Laid pgdir
          (next_page s + pages_of n + tables_of va n)
          (pages_of n)
          va
          (by2pg * next_page s)
          (pte_w + pte_u + pte_p)
          (keep_array a (kernbase + by2pg * next_page s) s)
          s'
unfolding map_array after_array
map_array-Laid end pgdir n a va s b pos al fit tabled room =
    let fits : next_page s + pages_of n ≤ s.maxpa / by2pg = omega (arith, room) in
    let s1 = keep_array a (kernbase + by2pg * next_page s) (after_array n s) in
    let next = array_next n s pos b.memory fits in
    let m = array_maxpa n s pos b.memory fits in
    let (s', run, laid) =
      boot_map_segment-Laid end pgdir va n (by2pg * next_page s) (pte_w + pte_u + pte_p) s1
        (kept_array-IsBoot a _ pgdir (after_array n s) (array-IsBoot n s pos b.memory fits pgdir b))
        al fit (omega (arith, fits, b.memory.small)) tabled (omega (arith, room, next, m)) in
    (
      s',
      array_run end pgdir n a va s (after_array n s) s' (array_allocated n s pos b.memory fits end)
          run,
      omega (arith, laid.grown, next),
      record {
        boot = laid.boot;
        bounded = omega (arith, laid.bounded, next);
        same_arrays = laid.same_arrays;
        grown = omega (arith, laid.grown, next);
        same_maxpa = laid.same_maxpa ∙ m;
        laid = laid.laid;
        others =
            λ x lx dx out. laid.others x lx dx out ∙ array_entry n s pos b.memory fits pgdir b x dx;
      },
    )
