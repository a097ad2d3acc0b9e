-- ===== src/Kern/Tests/Printing.antt =====
-- Printing at concrete numbers and formats.
use demo2s.Base.{ℕ, ◌≤◌, ◌≡◌, some, List, length, arith}
use demo2s.Kern.Printf.{ksprintn}
use demo2s.Kern.Printf.Digits.{number, ksprintn_lem}

ksprintn_lem_example :
    (ds : List ℕ) × (ksprintn 255 16 ≡ some ds)
    × (number 16 ds ≡ 255)
    × (1 ≤ length ds)
    × (length ds ≤ 64)
ksprintn_lem_example = ksprintn_lem 255 16 (omega arith) (omega arith) (omega arith)
