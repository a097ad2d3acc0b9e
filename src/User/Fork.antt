-- ===== src/User/Fork.antt =====
-- user/fork.c: `duppage` on the pages of an environment and of the child it makes, and `pgfault`, which gives a
-- page of its own to the one that writes. The page below UTEXT is used by `pgfault` alone, and is left
-- out; so is the exception stack, of which the child has its own. A call of the kernel that runs out
-- of memory has no result where the code panics.
pub mod Private
pub mod Isolation
use demo2s.Base.{
  ℕ, zero, suc, ◌+◌, ◌<◌, Bool, true, false, not, ◌&&◌, ◌||◌, Option, none, some, ◌==◌,
  if◌then◌else◌, update,
}

-- A present page table entry: the page of memory, and PTE_U, PTE_W, PTE_COW and PTE_LIBRARY.
pub record Pte : Type 0 where
  pub frame : ℕ
  pub user : Bool
  pub writable : Bool
  pub cow : Bool
  pub library : Bool

-- The two environments.
pub data Side : Type 0 where
  parent child : Side

-- `next` and the pages of memory above it are free.
pub record World : Type 0 where
  pub pages : Side → ℕ → Option Pte
  pub frames : ℕ → ℕ → ℕ
  pub next : ℕ

abbrev pub is_side : Side → Side → Bool
is_side parent parent = true
is_side parent child = false
is_side child parent = false
is_side child child = true

-- `sys_mem_map` of a page to page number pn of a side.
abbrev pub set_page : Side → ℕ → Pte → World → World
set_page x pn e w = record w {
  pages = λ y qn. if is_side x y && pn == qn then some e else w.pages y qn;
}

abbrev pub cow_entry : ℕ → Pte
cow_entry f = record { frame = f; user = true; writable = false; cow = true; library = false }

abbrev pub read_only_entry : ℕ → Pte
read_only_entry f = record {
  frame = f;
  user = true;
  writable = false;
  cow = false;
  library = false;
}

-- PTE_USER has all of the bits.
abbrev pub library_entry : ℕ → Pte
library_entry f = record { frame = f; user = true; writable = true; cow = true; library = true }

-- `duppage` on a page that is there. A page that may be written is mapped copy-on-write in both; the two maps are of
-- different page tables.
unfoldable pub dup_entry : ℕ → Pte → World → World
dup_entry pn e w =
    if not e.user
    then w
    else if e.library
    then set_page child pn (library_entry e.frame) w
    else if e.writable || e.cow
    then set_page child pn (cow_entry e.frame) (set_page parent pn (cow_entry e.frame) w)
    else set_page child pn (read_only_entry e.frame) w

unfoldable pub duppage : ℕ → World → World
unfolding dup_entry
duppage pn w = elim (w.pages parent pn) [ none ↦ w | some e ↦ dup_entry pn e w ]

-- `pgfault` on a write to a page that is copy-on-write.
abbrev pub own_entry : ℕ → Pte
own_entry f = record { frame = f; user = true; writable = true; cow = false; library = false }

unfoldable pub pgfault : Side → ℕ → Pte → World → World
pgfault x pn e w = record (set_page x pn (own_entry w.next) w) {
  frames = update w.frames w.next (w.frames e.frame);
  next = w.next + 1;
}

-- A write of v to word i of page pn by a user program, whose fault `pgfault` handles; the other faults panic.
abbrev pub store_word : ℕ → ℕ → ℕ → World → World
store_word f i v w = record w { frames = update w.frames f (update (w.frames f) i v) }

unfoldable pub write_entry : Side → ℕ → Pte → ℕ → ℕ → World → Option World
unfolding pgfault
write_entry x pn e i v w =
    if e.user && e.writable
    then some (store_word e.frame i v w)
    else if e.cow
    then some (store_word w.next i v (pgfault x pn e w))
    else none

-- The loop of `fork` over `left` pages from pn on. Pages without a page table are not there, and are skipped
-- in the source 1024 at a time.
unfoldable pub dup_from : ℕ → ℕ → World → World
unfolding duppage
dup_from zero pn w = w
dup_from (suc left) pn w = dup_from left (pn + 1) (duppage pn w)

-- USTACKTOP / BY2PG
abbrev pub stack_top_page : ℕ
stack_top_page = 0xeebfe

unfoldable pub fork_pages : World → World
unfolding dup_from
fork_pages w = dup_from stack_top_page 0 w
