-- ===== src/Kern/Pmap/Space.antt =====
-- An address space below UTOP as the page tables give it: well-formed tables, and the entry that
-- each address has.
use demo2s.Base.{
  ℕ, ◌/◌, ◌%◌, ◌<◌, ◌≡◌, ◌≢◌, Bool, true, false, inl, inr, ◌⊎◌, List, ◌∷◌, arith, ◌==◌,
  if◌then◌else◌, ◌∉◌, done, Bool-cases, update,
}
use demo2s.Kern.Mmu.{pdx, ptx, ppn, pte_addr, present, utop}
use demo2s.Kern.State.{Kernel}
use demo2s.Kern.Pmap.{va2pa, read_entry, kaddr_ok}

abbrev pub Memory : Type 0
Memory = ℕ → ℕ → ℕ

abbrev pub store : Memory → ℕ → ℕ → ℕ → Memory
store m t i w = update m t (update (m t) i w)

-- The page that an entry names.
abbrev pub frame : ℕ → ℕ
frame w = w / 4096

-- The page table that serves index i of the page directory.
abbrev pub table : ℕ → Memory → ℕ → ℕ
table pgdir m i = frame (m pgdir i)

abbrev pub HasTable : ℕ → Memory → ℕ → Type 0
HasTable pgdir m i = present (m pgdir i) ≡ true

-- The page table entry of an address, 0 where there is no table.
abbrev pub entry : ℕ → Memory → ℕ → ℕ
entry pgdir m va = if present (m pgdir (pdx va)) then m (table pgdir m (pdx va)) (ptx va) else 0

-- What an entry maps, if anything, is a page of memory that is neither the directory nor a table.
abbrev pub IsPage : ℕ → ℕ → Memory → ℕ → Type 0
IsPage pgdir npage m w =
    present w ≡ true
    → (frame w < npage)
      × (frame w ≢ pgdir)
      × ((l : ℕ) → l < 955 → HasTable pgdir m l → frame w ≢ table pgdir m l)

-- Addresses in one page have one entry.
pub entry_same_page :
    (pgdir : ℕ) (m : Memory) (va va' : ℕ) → ppn va ≡ ppn va' → entry pgdir m va ≡ entry pgdir m va'
entry_same_page pgdir m va va' h = rw (pages va, pages' va, pages va', pages' va', h)
  where
    pages : (a : ℕ) → pdx a ≡ ppn a / 1024 % 1024
    pages a = omega arith

    pages' : (a : ℕ) → ptx a ≡ ppn a % 1024
    pages' a = omega arith

-- The directory and its tables are distinct pages of memory that are not on the free list, and no
-- page mapped through them is one of them. UTOP is at index 955 of the directory.
pub record IsSpace (pgdir npage : ℕ) (m : Memory) (free : List ℕ) : Type 0 where
  pub root_used : pgdir ∉ free
  pub table_in : (i : ℕ) → i < 955 → HasTable pgdir m i → table pgdir m i < npage
  pub table_used : (i : ℕ) → i < 955 → HasTable pgdir m i → table pgdir m i ∉ free
  pub table_ne_root : (i : ℕ) → i < 955 → HasTable pgdir m i → table pgdir m i ≢ pgdir
  pub tables_ne :
      (i j : ℕ)
      → i < 955
      → j < 955
      → i ≢ j
      → HasTable pgdir m i
      → HasTable pgdir m j
      → table pgdir m i ≢ table pgdir m j
  pub page_good :
      (i j : ℕ) → i < 955 → HasTable pgdir m i → IsPage pgdir npage m (m (table pgdir m i) j)

abbrev pub Space : ℕ → Kernel → Type 0
Space pgdir k = IsSpace pgdir k.npage k.mem k.page_free_list

-- `va2pa` reads the entry of the address, and does not panic.
pub va2pa-entry :
    {pgdir : ℕ} {k : Kernel} (s : Space pgdir k) (va : ℕ)
    → va < utop
    → va2pa pgdir va k ≡ done (read_entry (entry pgdir k.mem va)) k
unfolding va2pa
va2pa-entry {pgdir} {k} s va h = elim (Bool-cases (present (k.mem pgdir (pdx va)))) [
  | inl e ↦ rw (
    e,
    kaddr_ok (pte_addr (k.mem pgdir (pdx va))) (table pgdir k.mem (pdx va)) k (omega arith)
        (s.table_in (pdx va) (omega arith) e),
  )
  | inr e ↦ rw e
]

module _ {pgdir npage : ℕ} {m : Memory} {free : List ℕ} (s : IsSpace pgdir npage m free) where
  -- Freeing a page that is neither the directory nor a table.
  pub free-IsSpace :
      (q : ℕ)
      → q ≢ pgdir
      → ((i : ℕ) → i < 955 → HasTable pgdir m i → table pgdir m i ≢ q)
      → IsSpace pgdir npage m (q ∷ free)
  free-IsSpace q r t = record {
    root_used = ground (arith, s.root_used);
    table_in = s.table_in;
    table_used = λ i h p. ground (arith, s.table_used i h p, t i h p);
    table_ne_root = s.table_ne_root;
    tables_ne = s.tables_ne;
    page_good = s.page_good;
  }

  -- Freeing it or not, as a test says.
  pub free_if-IsSpace :
      (b : Bool) (q : ℕ)
      → q ≢ pgdir
      → ((i : ℕ) → i < 955 → HasTable pgdir m i → table pgdir m i ≢ q)
      → IsSpace pgdir npage m (if b then q ∷ free else free)
  free_if-IsSpace true q r t = free-IsSpace q r t
  free_if-IsSpace false q r t = s

  module _ (va w : ℕ) (low : va < utop) (has : HasTable pgdir m (pdx va)) where
    -- A write to the entry of `va` changes the entry of that page and no other.
    pub entry-store :
        (va' : ℕ)
        → va' < utop
        → entry pgdir (store m (table pgdir m (pdx va)) (ptx va) w) va'
          ≡ (if ppn va == ppn va' then w else entry pgdir m va')
    entry-store va' h' = ground (arith, s.table_ne_root (pdx va), s.tables_ne (pdx va) (pdx va'))

    pub root_same : (i : ℕ) → store m (table pgdir m (pdx va)) (ptx va) w pgdir i ≡ m pgdir i
    root_same i = ground (arith, s.table_ne_root (pdx va))

    IsPage-store :
        (x : ℕ)
        → IsPage pgdir npage m x
        → IsPage pgdir npage (store m (table pgdir m (pdx va)) (ptx va) w) x
    IsPage-store x good h =
        ((good h).0, (good h).1, λ l b t. rw (root_same l) ((good h).2 l b (rw (root_same l) at t)))

    -- It keeps the tables well formed, if what it maps is a page of memory that is no table.
    pub store-IsSpace :
        IsPage pgdir npage m w
        → IsSpace pgdir npage (store m (table pgdir m (pdx va)) (ptx va) w) free
    store-IsSpace good = record {
      root_used = s.root_used;
      table_in = λ i h t. rw (root_same i) (s.table_in i h (rw (root_same i) at t));
      table_used = λ i h t. rw (root_same i) (s.table_used i h (rw (root_same i) at t));
      table_ne_root = λ i h t. rw (root_same i) (s.table_ne_root i h (rw (root_same i) at t));
      tables_ne = λ i j h g ne t t'.
          rw (root_same i, root_same j)
            (s.tables_ne i j h g ne (rw (root_same i) at t) (rw (root_same j) at t'));
      page_good = λ i j h t.
          let old = s.page_good i j h (rw (root_same i) at t) in
          rw (root_same i) (elim (store_word (table pgdir m i) j) [
            | inl new ↦ rw new (IsPage-store w good)
            | inr same ↦ rw same (IsPage-store (m (table pgdir m i) j) old)
          ]);
    }
      where
        store_word :
            (a b : ℕ)
            → (store m (table pgdir m (pdx va)) (ptx va) w a b ≡ w)
              ⊎ (store m (table pgdir m (pdx va)) (ptx va) w a b ≡ m a b)
        store_word a b = ground arith
