-- ===== src/Kern/Pmap/Mapping/Directory.antt =====
-- The page directory that `i386_vm_init` of kern/pmap.c starts with.
use demo2s.Base.{
  ℕ, ◌+◌, ◌-◌, ◌*◌, ◌/◌, ◌<◌, ◌≡◌, refl, ap, ◌∙◌, Bool, true, false, ◌==◌, done, u32, bit_or, arith,
  ==_of_ne, ltb_of_le,
}
use demo2s.Kern.Mmu.{by2pg, ppn, pdx, present, kernbase, pte_p, pte_w, pte_u, vpt, uvpt}
use demo2s.Kern.Pmap.Mapping.{Boot, chunk, give, alloc, paddr, store, create_directory}
use demo2s.Kern.Pmap.Mapping.Memory.{next_page, InMemory, after_page, cleared_here}
use demo2s.Kern.Pmap.Mapping.Tables.{IsTable, IsBoot}
use demo2s.Kern.Pmap.Mapping.Segment.{stored_beside}

-- `freemem` starts at the end of the kernel's image.
abbrev pub image_end : ℕ → Boot → Boot
image_end end s = record s { freemem = end }

first_chunk :
    (end : ℕ) (s : Boot)
    → s.freemem ≡ 0
    → kernbase < end
    → chunk end by2pg s ≡ chunk end by2pg (image_end end s)
first_chunk end s z lt =
    let e : (s.freemem == 0) ≡ true = ground (arith, z) in
    let f : (end == 0) ≡ false = ==_of_ne end 0 (λ h. omega (arith, h, lt)) in rw (e, f) refl

pub first_alloc :
    (end : ℕ) (s : Boot)
    → s.freemem ≡ 0
    → kernbase < end
    → alloc end by2pg by2pg true s ≡ alloc end by2pg by2pg true (image_end end s)
unfolding alloc
first_alloc end s z lt = ap (λ x. give by2pg true x (u32 (x + by2pg)) s) (first_chunk end s z lt)

-- The directory's page, with the two self maps
abbrev pub directory : ℕ → Boot → Boot
directory end s =
    let s1 = after_page (image_end end s) in
    let p = next_page (image_end end s) in
    store p (pdx uvpt) (bit_or (bit_or (by2pg * p) pte_u) pte_p)
      (store p (pdx vpt) (bit_or (bit_or (by2pg * p) pte_w) pte_p) s1)

module _ (end : ℕ) (s : Boot) (m : InMemory (image_end end s))
    (room : next_page (image_end end s) < s.maxpa / by2pg) where
  directory_empty : (d : ℕ) → IsTable d → (directory end s).mem (next_page (image_end end s)) d ≡ 0
  directory_empty d (lt, nv, nu) =
      let p = next_page (image_end end s) in
      let s1 = after_page (image_end end s) in
      let w = bit_or (bit_or (by2pg * p) pte_w) pte_p in
      stored_beside p (pdx uvpt) (bit_or (bit_or (by2pg * p) pte_u) pte_p) d
        (store p (pdx vpt) w s1) nu
      ∙ stored_beside p (pdx vpt) w d s1 nv
      ∙ cleared_here s.mem p d lt

  pub directory_absent :
      (d : ℕ) → IsTable d → present ((directory end s).mem (next_page (image_end end s)) d) ≡ false
  directory_absent d id = ap present (directory_empty d id)

  pub directory-IsBoot : IsBoot (next_page (image_end end s)) (directory end s)
  directory-IsBoot = record {
    memory = record { above = omega arith; small = m.small; below = omega (arith, room) };
    limit = omega (arith, room);
    root = omega arith;
    table = λ d id p. absurd (clash (directory_absent d id) p);
    own = λ d e id ie pd pe same. absurd (clash (directory_absent d id) pd);
  }
    where
      clash : {b : Bool} → b ≡ false → b ≡ true → ⊥
      clash f t = cc

pub directory_run :
    (end p : ℕ) (s s1 : Boot)
    → alloc end by2pg by2pg true s ≡ done (kernbase + by2pg * p) s1
    → create_directory end s
      ≡ done p (
          store p
            (pdx uvpt)
            (bit_or (bit_or (by2pg * p) pte_u) pte_p)
            (store p (pdx vpt) (bit_or (bit_or (by2pg * p) pte_w) pte_p) s1))
unfolding create_directory paddr
directory_run end p s s1 a =
    let k = ltb_of_le (kernbase + by2pg * p) kernbase (omega arith) in
    let y : kernbase + by2pg * p - kernbase ≡ by2pg * p = omega arith in
    let q : ppn (by2pg * p) ≡ p = omega arith in rw (create_directory, a, k, y, q) refl
