-- ===== src/Kern/Tests/Start.antt =====
-- The free pages of a machine with 260 pages, 3 of them in base memory, whose kernel ends at page 257.
use demo2s.Base.{ℕ, ◌≡◌, ◌&&◌, ltb, member, arith}
use demo2s.Kern.State.{Kernel}
use demo2s.Kern.Pmap.Alloc.{IsFreeList}
use demo2s.Kern.Pmap.Boot.{page_init, page_init_lem, is_wanted}
use demo2s.Kern.Tests.{kernel0}

abbrev machine : Kernel
machine = record kernel0 { npage = 260 }

page_init_lem_example :
    IsFreeList (page_init 0x3000 0x100010 machine)
    × ((p : ℕ)
        → member p (page_init 0x3000 0x100010 machine).page_free_list
          ≡ (ltb p 260 && is_wanted 3 257 p))
page_init_lem_example = page_init_lem 0x3000 0x100010 machine (omega arith) (omega arith)
