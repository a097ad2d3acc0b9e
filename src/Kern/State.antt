-- ===== src/Kern/State.antt =====
-- The kernel's state: the globals of kern/pmap.c, kern/env.c, kern/console.c and kern/printf.c.
use demo2s.Base.{ℕ, List, Option, M, done, panic, none, some, Bool}

-- inc/trap.h, struct Trapframe
pub record Trapframe : Type 0 where
  pub edi : ℕ
  pub esi : ℕ
  pub ebp : ℕ
  pub oesp : ℕ
  pub ebx : ℕ
  pub edx : ℕ
  pub ecx : ℕ
  pub eax : ℕ
  pub es : ℕ
  pub ds : ℕ
  pub trapno : ℕ
  pub errcode : ℕ
  pub eip : ℕ
  pub cs : ℕ
  pub eflags : ℕ
  pub esp : ℕ
  pub ss : ℕ

-- env_status
pub data Status : Type 0 where
  free runnable not_runnable : Status

-- inc/env.h, struct Env, without the list link. A page directory is named by the number of the
-- physical page that holds it; `none` is the null pointer.
pub record Env : Type 0 where
  pub tf : Trapframe
  pub id : ℕ
  pub parent_id : ℕ
  pub status : Status
  pub pgdir : Option ℕ
  pub cr3 : ℕ
  pub ipc_value : ℕ
  pub ipc_from : ℕ
  pub ipc_recving : Bool
  pub ipc_dstva : ℕ
  pub ipc_perm : ℕ
  pub pgfault_handler : ℕ
  pub xstacktop : ℕ
  pub runs : ℕ

-- The console's input ring, the anonymous struct `cons` of kern/console.c.
pub record Cons : Type 0 where
  pub buf : ℕ → ℕ
  pub rpos : ℕ
  pub wpos : ℕ

-- PFM_NONE and PFM_KILL: what a page fault in the kernel does.
pub data FaultMode : Type 0 where
  pfm_none pfm_kill : FaultMode

-- A free list is the list of its elements' indices, the first element first. `mem p i` is the i-th
-- 32-bit word of physical page p. `tlb` lists the addresses given to `invlpg`, the last one first.
-- `utf` is the trap frame that the last trap left on the kernel stack (UTF).
pub record Kernel : Type 0 where
  pub mem : ℕ → ℕ → ℕ
  pub refs : ℕ → ℕ
  pub page_free_list : List ℕ
  pub npage : ℕ
  pub boot_pgdir : ℕ
  pub tlb : List ℕ
  pub envs : ℕ → Env
  pub env_free_list : List ℕ
  pub curenv : Option ℕ
  pub next_env_id : ℕ
  pub cr3 : ℕ
  pub utf : Trapframe
  pub cons : Cons
  pub color : ℕ
  pub page_fault_mode : FaultMode

-- A dereference of a pointer that may be null: the kernel has no page there, and the fault stops it.
abbrev pub deref : {A : Type 0} → Option A → M Kernel A
deref none k = panic
deref (some a) k = done a k
