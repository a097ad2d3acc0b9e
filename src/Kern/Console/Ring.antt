-- ===== src/Kern/Console/Ring.antt =====
-- The input ring as a queue of the characters that are still to be read.
use demo2s.Base.{
  ℕ, ◌+◌, ◌-◌, ◌%◌, ◌≤◌, ◌<◌, ◌≡◌, arith, ◌==◌, if◌then◌else◌, done, Bool-cases, inl, inr,
}
use demo2s.Kern.State.{Kernel, Cons}
use demo2s.Kern.Console.{push, cons_getc}

pub record IsRing (s : Cons) : Type 0 where
  pub rpos_in : s.rpos < 512
  pub wpos_in : s.wpos < 512

-- How many characters wait, and the i-th of them.
abbrev pub waiting : Cons → ℕ
waiting s = (s.wpos + 512 - s.rpos) % 512

abbrev pub item : Cons → ℕ → ℕ
item s i = s.buf ((s.rpos + i) % 512)

-- While fewer than 511 characters wait, storing one puts it behind those that wait, in the low
-- eight bits, and leaves them as they are.
pub push_lem :
    (c i : ℕ) (s : Cons)
    → IsRing s
    → waiting s < 511
    → i ≤ waiting s
    → IsRing (push c s)
      × (waiting (push c s) ≡ waiting s + 1)
      × (item (push c s) i ≡ (if i == waiting s then c % 256 else item s i))
unfolding push
push_lem c i s r room lt = (ground arith, ground arith, ground arith)

-- With 511 waiting, one more makes the ring look empty: all 512 are lost to the reader.
pub push_full : (c : ℕ) (s : Cons) → IsRing s → waiting s ≡ 511 → waiting (push c s) ≡ 0
unfolding push
push_full c s r full = ground arith

-- `cons_getc` returns 0 and takes nothing from an empty ring; else it returns the oldest character
-- and takes it, and the others wait in their order.
pub cons_getc_lem :
    (i : ℕ) (k : Kernel)
    → IsRing k.cons
    → (k' : Kernel) × (cons_getc k ≡ done (if waiting k.cons == 0 then 0 else item k.cons 0) k')
      × IsRing k'.cons
      × (waiting k'.cons ≡ waiting k.cons - 1)
      × (item k'.cons i ≡ (if waiting k.cons == 0 then item k.cons i else item k.cons (i + 1)))
unfolding cons_getc
cons_getc_lem i k r = elim (Bool-cases (k.cons.rpos == k.cons.wpos)) [
  | inl e ↦ (k, ground arith, r, ground arith, ground arith)
  | inr e ↦ (
    record k {
      cons = record (k.cons) { rpos = (if k.cons.rpos + 1 == 512 then 0 else k.cons.rpos + 1) };
    },
    ground arith,
    ground arith,
    ground arith,
    ground arith,
  )
]
