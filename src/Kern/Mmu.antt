-- ===== src/Kern/Mmu.antt =====
-- inc/mmu.h: how an x86 address and a page table entry are read. The shifts and masks are written
-- as `/` and `%`, which are the same functions on the 32-bit words that they are applied to.
use demo2s.Base.{ℕ, ◌+◌, ◌*◌, ◌/◌, ◌%◌, ◌^◌, ◌<◌, ◌≡◌, Bool, arith, bit_or, ◌==◌, u32}
use demo2s.Base.Bits.{bit_or_field, bit_or-one}

abbrev pub by2pg : ℕ
by2pg = 4096

abbrev pub pde2pd : ℕ
pde2pd = 1024

-- Page directory index, page table index, page number, offset in the page.
abbrev pub pdx : ℕ → ℕ
pdx va = va / 2 ^ 22 % 1024

abbrev pub ptx : ℕ → ℕ
ptx va = va / 2 ^ 12 % 1024

abbrev pub ppn : ℕ → ℕ
ppn va = va / 2 ^ 12

abbrev pub pte_addr : ℕ → ℕ
pte_addr pte = pte / 4096 * 4096

abbrev pub pte_p : ℕ
pte_p = 1

abbrev pub pte_w : ℕ
pte_w = 2

abbrev pub pte_u : ℕ
pte_u = 4

abbrev pub pte_avail : ℕ
pte_avail = 0xe00

-- `pte & PTE_P`
abbrev pub present : ℕ → Bool
present pte = pte % 2 == 1

-- The boundaries of the address space.
abbrev pub kernbase : ℕ
kernbase = 0xf0000000

abbrev pub vpt : ℕ
vpt = 0xefc00000

abbrev pub uvpt : ℕ
uvpt = 0xef400000

abbrev pub utop : ℕ
utop = 0xeec00000

abbrev pub ustacktop : ℕ
ustacktop = 0xeebfe000

abbrev pub utext : ℕ
utext = 0x800000

-- `ROUND(a, n)` at n = BY2PG.
abbrev pub round_page : ℕ → ℕ
round_page a = (a + 4095) / 4096 * 4096

-- `page2pa(pp)`, with the page given by its index in `pages`.
abbrev pub page2pa : ℕ → ℕ
page2pa p = u32 (p * 4096)

-- `page2pa(pp) | perm | PTE_P`
abbrev pub mk_pte : ℕ → ℕ → ℕ
mk_pte p perm = bit_or (bit_or (page2pa p) perm) pte_p

-- With permission bits below the page offset, an entry is the page's address, the permissions, and
-- the present bit.
pub mk_pte_lem :
    (p perm : ℕ) → p < 2 ^ 20 → perm < 4096 → mk_pte p perm ≡ p * 4096 + perm / 2 * 2 + 1
mk_pte_lem p perm hp h =
    rw (small, bit_or_field 12 p perm h) (omega (arith, bit_or-one (p * 2 ^ 12 + perm)))
  where
    small : page2pa p ≡ p * 2 ^ 12
    small = omega arith
