-- ===== src/Kern/Sched.antt =====
-- kern/sched.c with `env_run` and `env_destroy` of kern/env.c: who runs next, and the switch to it.
pub mod Fair
use demo2s.Base.{
  ℕ, zero, suc, ◌+◌, ◌-◌, ◌%◌, ◌^◌, Bool, true, false, Option, none, some, Run, M, done, leave,
  panic, pure, and_then, ◌>>=◌, ◌>>◌, get, modify, update, ◌==◌, if◌then◌else◌,
}
use demo2s.Kern.State.{Kernel, Env}
use demo2s.Kern.Env.{nenv, set_env, is_runnable, env_free}

-- `if (curenv) bcopy(UTF, &curenv->env_tf, ...)`
abbrev pub save_current : Kernel → Kernel
save_current k = elim k.curenv [
  | none ↦ k
  | some c ↦ set_env c (record (k.envs c) { tf = k.utf }) k
]

-- `runs` is a 32-bit counter.
unfoldable pub run_state : ℕ → Kernel → Kernel
run_state e k =
    let s = save_current k in
    set_env e (record (s.envs e) { runs = ((s.envs e).runs + 1) % 2 ^ 32 })
      (record s { curenv = some e; cr3 = (s.envs e).cr3 })

unfoldable pub env_run : {A : Type 0} → ℕ → M Kernel A
unfolding run_state
env_run e k = leave (run_state e k)

-- A loop of `sched_yield`: the first runnable environment among `left` ones from `e` on.
unfoldable pub first_runnable : Kernel → ℕ → ℕ → Option ℕ
first_runnable k e zero = none
first_runnable k e (suc left) =
    let rest = first_runnable k (e + 1) left in
    if is_runnable (k.envs e).status then some e else rest

abbrev pub or_else : Option ℕ → Option ℕ → Option ℕ
or_else none b = b
or_else (some a) b = some a

abbrev pub get_or : Option ℕ → ℕ → ℕ
get_or none d = d
get_or (some a) d = a

-- The loops leave environment 0 out; it runs when they find nothing.
unfoldable pub choose : Kernel → ℕ
unfolding first_runnable
choose k = elim k.curenv [
  | none ↦ get_or (first_runnable k 1 (nenv - 1)) 0
  | some c ↦ get_or (or_else (first_runnable k (c + 1) (nenv - 1 - c)) (first_runnable k 1 c)) 0
]

unfoldable pub sched_yield : {A : Type 0} → M Kernel A
unfolding choose env_run
sched_yield k = env_run (choose k) k

abbrev pub is_current : ℕ → Kernel → Bool
is_current e k = elim k.curenv [ none ↦ false | some c ↦ c == e ]

unfoldable pub env_destroy : ℕ → M Kernel (Unit {0})
unfolding env_free sched_yield
env_destroy e = do
  env_free e
  k ← get
  (if is_current e k then (do modify (λ k. record k { curenv = none }); sched_yield) else pure tt)
