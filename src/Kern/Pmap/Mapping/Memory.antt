-- ===== src/Kern/Pmap/Mapping/Memory.antt =====
-- The boot-time allocator of kern/pmap.c, when it is asked for a page.
use demo2s.Base.{
  ℕ, ◌+◌, ◌-◌, ◌*◌, ◌/◌, ◌^◌, ◌≤◌, ◌<◌, ◌≡◌, ◌≢◌, ap, ◌∙◌, true, false, ◌||◌, done, ltb, ◌==◌,
  if_false, panic, ==_of_ne, u32, arith,
}
use demo2s.Kern.Mmu.{by2pg, kernbase}
use demo2s.Kern.Pmap.Mapping.{
  Boot, last_address, clipped, i386_detect_memory, cleared, chunk, give, alloc,
}

last_small :
    (basemem extmem : ℕ) → basemem < 2 ^ 27 → last_address basemem (clipped extmem) < 2 ^ 28
last_small basemem extmem lt = ground (arith, lt)

-- The first physical page that is not yet used
abbrev pub next_page : Boot → ℕ
next_page s = (s.freemem - kernbase + 4095) / by2pg

pub record InMemory (s : Boot) : Type 0 where
  pub above : kernbase < s.freemem
  pub small : s.maxpa < 2 ^ 28
  pub below : s.freemem ≤ kernbase + s.maxpa

pub cleared_here :
    (m : ℕ → ℕ → ℕ) (t i : ℕ) → i < 1024 → cleared by2pg (kernbase + by2pg * t) m t i ≡ 0
cleared_here m t i lt = ground (arith, lt)

pub cleared_other :
    (m : ℕ → ℕ → ℕ) (t p i : ℕ)
    → i < 1024
    → p ≢ t
    → cleared by2pg (kernbase + by2pg * t) m p i ≡ m p i
cleared_other m t p i lt ne = ground (arith, lt, ne)

abbrev pub after_page : Boot → Boot
after_page s = record s {
  freemem = kernbase + by2pg * (next_page s + 1);
  mem = cleared by2pg (kernbase + by2pg * next_page s) s.mem;
}

pub chunk_page :
    (end : ℕ) (s : Boot)
    → InMemory s
    → next_page s < s.maxpa / by2pg
    → chunk end by2pg s ≡ kernbase + by2pg * next_page s
chunk_page end s m room =
    let z : (s.freemem == 0) ≡ false = ==_of_ne s.freemem 0 (λ e. omega (arith, e, m.above)) in
    rw z (omega (arith, m.above, m.small, room))

alloc_at :
    (end v f : ℕ) (s : Boot)
    → chunk end by2pg s ≡ v
    → u32 (v + by2pg) ≡ f
    → (ltb (u32 (kernbase + s.maxpa)) f || ltb f v) ≡ false
    → alloc end by2pg by2pg true s ≡ done v (record s { freemem = f; mem = cleared by2pg v s.mem })
unfolding alloc
alloc_at end v f s ev ef g =
    ap (λ x. give by2pg true x (u32 (x + by2pg)) s) ev
    ∙ ap (λ x. give by2pg true v x s) ef
    ∙ if_false (ltb (u32 (kernbase + s.maxpa)) f || ltb f v) panic
        (done v (record s { freemem = f; mem = cleared by2pg v s.mem })) g

pub alloc_page :
    (end : ℕ) (s : Boot)
    → InMemory s
    → next_page s < s.maxpa / by2pg
    → alloc end by2pg by2pg true s ≡ done (kernbase + by2pg * next_page s) (after_page s)
alloc_page end s m room =
    alloc_at end (kernbase + by2pg * next_page s) (kernbase + by2pg * (next_page s + 1)) s
      (chunk_page end s m room) (omega (arith, room, m.small)) (ground (arith, room, m.small))

-- The memory that i386_detect_memory finds ends below 2^28, so KERNBASE + maxpa does not wrap.
pub i386_detect_memory_lem :
    (nvram l h : ℕ) → nvram < 2 ^ 16 → (i386_detect_memory nvram l h).maxpa < 2 ^ 28
unfolding i386_detect_memory
i386_detect_memory_lem nvram l h lt =
    last_small (u32 (nvram * 1024) / by2pg * by2pg) (u32 (l + h + 2 ^ 32 - 2 ^ 20))
      (omega (arith, lt))
