-- ===== src/Kern/Sched/Fair.antt =====
-- Whom `sched_yield` picks.
use demo2s.Base.{
  ℕ, zero, suc, ◌+◌, ◌-◌, ◌≤◌, ◌<◌, ◌≡◌, ◌⊎◌, refl, Bool, true, false, inl, inr, Option, none, some,
  arith, ltb, leave, if◌then◌else◌, Bool-cases,
}
use demo2s.Kern.State.{Kernel}
use demo2s.Kern.Env.{is_runnable}
use demo2s.Kern.Sched.{first_runnable, choose, get_or, or_else, sched_yield, run_state}

abbrev pub runs_ok : Kernel → ℕ → Bool
runs_ok k e = is_runnable (k.envs e).status

-- What the answer of a scan over `left` environments from `e` on says of a runnable environment i:
-- it is outside, or not before the one found.
abbrev Scanned : Kernel → ℕ → ℕ → ℕ → Option ℕ → Type 0
Scanned k e left i none = (i < e) ⊎ (e + left ≤ i)
Scanned k e left i (some j) = (e ≤ j) × (j < e + left) × (runs_ok k j ≡ true) × ((i < e) ⊎ (j ≤ i))

earlier :
    (k : Kernel) (i left e : ℕ)
    → runs_ok k i ≡ true
    → runs_ok k e ≡ false
    → (o : Option ℕ) → Scanned k (e + 1) left i o
    → Scanned k e (suc left) i o
earlier k i left e r no_e none s = ground arith
earlier k i left e r no_e (some j) s = (omega arith, omega arith, s.2, ground arith)

scan :
    (k : Kernel) (i left e : ℕ) → runs_ok k i ≡ true → Scanned k e left i (first_runnable k e left)
unfolding first_runnable
scan k i zero e r = omega arith
scan k i (suc left) e r = elim (Bool-cases (runs_ok k e)) [
  | inl here ↦ rw here (omega arith, omega arith, here, omega arith)
  | inr no_e ↦
      rw no_e (earlier k i left e r no_e (first_runnable k (e + 1) left) (scan k i left (e + 1) r))
]

-- How many steps after the environment c the turn of j comes, going round from 1023 to 1.
abbrev pub turn : ℕ → ℕ → ℕ
turn c j = if ltb c j then j - c else j + 1023 - c

-- The choice among what the two scans found.
abbrev pub IsTurn : Kernel → ℕ → ℕ → ℕ → Type 0
IsTurn k c i j = (1 ≤ j) × (j < 1024) × (runs_ok k j ≡ true) × (turn c j ≤ turn c i)

picked :
    (k : Kernel) (c i : ℕ)
    → c < 1024
    → 1 ≤ i
    → i < 1024
    → runs_ok k i ≡ true
    → (a b : Option ℕ) → Scanned k (c + 1) (1023 - c) i a
    → Scanned k 1 c i b
    → IsTurn k c i (get_or (or_else a b) 0)
picked k c i hc h1 h2 r (some j) b sa sb = (omega arith, omega arith, sa.2, ground arith)
picked k c i hc h1 h2 r none (some j) sa sb = (omega arith, omega arith, sb.2, ground arith)
picked k c i hc h1 h2 r none none sa sb = absurd (omega arith)

pub choose-IsTurn :
    (k : Kernel) (c i : ℕ)
    → k.curenv ≡ some c
    → c < 1024
    → 1 ≤ i
    → i < 1024
    → runs_ok k i ≡ true
    → IsTurn k c i (choose k)
unfolding choose
choose-IsTurn k c i cur hc h1 h2 r = rw cur (
    picked k c i hc h1 h2 r (first_runnable k (c + 1) (1023 - c)) (first_runnable k 1 c)
      (scan k i (1023 - c) (c + 1) r) (scan k i c 1 r))

-- While some environment besides 0 is runnable, `sched_yield` switches to a runnable one that is not
-- 0 and comes first in the round after the current one: no runnable environment has an earlier turn.
-- It saves the trap frame of the current one, loads the page directory of the new one, and never
-- returns to its caller.
pub sched_yield_lem :
    (k : Kernel) (c i : ℕ)
    → k.curenv ≡ some c
    → c < 1024
    → 1 ≤ i
    → i < 1024
    → runs_ok k i ≡ true
    → (j : ℕ) × (k' : Kernel) × (sched_yield {A = Unit {0}} k ≡ leave k')
      × (1 ≤ j)
      × (j < 1024)
      × (runs_ok k j ≡ true)
      × (turn c j ≤ turn c i)
      × (k'.curenv ≡ some j)
      × (k'.cr3 ≡ (k.envs j).cr3)
      × ((k'.envs c).tf ≡ k.utf)
unfolding sched_yield
sched_yield_lem k c i cur hc h1 h2 r =
    let t = choose-IsTurn k c i cur hc h1 h2 r in
    (choose k, run_state (choose k) k, refl, t.0, t.1, t.2, t.3, refl, ground arith, ground arith)
