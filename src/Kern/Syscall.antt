-- ===== src/Kern/Syscall.antt =====
-- kern/syscall.c: the system calls, each with the guards of the source in their order, and the
-- dispatcher. What a call prints on the console is not part of the state.
pub mod Laws
pub mod Message
use demo2s.Base.{
  ℕ, ◌+◌, ◌-◌, ◌^◌, Bool, true, false, not, ◌||◌, ◌&&◌, Option, none, some, bit_and, bit_or, Run, M,
  done, leave, panic, pure, and_then, ◌>>=◌, ◌>>◌, get, modify, try, Ret, ok, err, inval,
  ipc_not_recv, ltb, leb, ◌==◌, if◌then◌else◌,
}
use demo2s.Kern.Mmu.{utop, pte_p, pte_w, pte_u, pte_avail, page2pa}
use demo2s.Kern.State.{
  Kernel, Env, Trapframe, Status, free, runnable, not_runnable, pfm_none, pfm_kill, deref,
}
use demo2s.Kern.Pmap.{page_alloc, page_insert, page_lookup, page_remove, kaddr, zero_page}
use demo2s.Kern.Env.{envid2env, env_alloc, set_env, fl_if}
use demo2s.Kern.Sched.{sched_yield, env_destroy, is_current}
use demo2s.Kern.Console.{cons_getc}

-- A lookup of an environment that then uses the pointer.
abbrev pub with_env : {A : Type 0} → ℕ → Bool → (ℕ → M Kernel (Ret A)) → M Kernel (Ret A)
with_env envid checkperm f = try (envid2env envid checkperm) λ penv. deref penv >>= f

abbrev pub update_env : ℕ → (Env → Env) → Kernel → Kernel
update_env e f k = set_env e (f (k.envs e)) k

-- The current environment, which every call takes to exist.
abbrev pub current : M Kernel ℕ
current k = deref k.curenv k

unfoldable pub sys_getenvid : M Kernel (Ret ℕ)
sys_getenvid = do c ← current; k ← get; pure (ok (k.envs c).id)

unfoldable pub sys_set_color : ℕ → M Kernel (Unit {0})
sys_set_color c = modify (λ k. record k { color = c })

unfoldable pub sys_env_destroy : ℕ → M Kernel (Ret (Unit {0}))
sys_env_destroy envid = with_env envid true λ e. do env_destroy e; pure (ok tt)

abbrev pub receiving : ℕ → Env → Env
receiving dstva v = record v { ipc_recving = true; ipc_dstva = dstva; status = not_runnable }

recv_at : ℕ → ℕ → M Kernel (Unit {0})
recv_at c dstva k =
    if (k.envs c).ipc_recving
    then panic
    else if leb utop dstva
    then panic
    else sched_yield (update_env c (receiving dstva) k)

unfoldable pub sys_ipc_recv : ℕ → M Kernel (Unit {0})
unfolding recv_at
sys_ipc_recv dstva = do c ← current; recv_at c dstva

-- `((~perm)&(PTE_U|PTE_P)) || (perm&~(PTE_U|PTE_P|PTE_AVAIL|PTE_W))` on 32-bit words
abbrev pub bad_perm : ℕ → Bool
bad_perm perm =
    not (bit_and (2 ^ 32 - 1 - perm) (pte_u + pte_p) == 0)
    || not (bit_and perm (2 ^ 32 - 1 - (pte_u + pte_p + pte_avail + pte_w)) == 0)

-- The fields that a successful send writes.
abbrev pub receive : ℕ → ℕ → ℕ → Env → Env
receive from value perm v = record v {
  ipc_perm = perm;
  ipc_recving = false;
  ipc_from = from;
  ipc_value = value;
  status = runnable;
}

-- The page part of `sys_ipc_can_send`; its value is the `env_ipc_perm` to store.
send_page : ℕ → ℕ → ℕ → ℕ → M Kernel (Ret ℕ)
send_page c e srcva perm k =
    if leb utop srcva
    then done (err inval) k
    else if bad_perm perm
    then done (err inval) k
    else (do
      src ← deref (k.envs c).pgdir
      (p, _) ← page_lookup src srcva
      k' ← get
      elim p [
        | none ↦ pure (err inval)
        | some pp ↦ (do
          dst ← deref (k'.envs e).pgdir
          try (page_insert dst pp (k'.envs e).ipc_dstva perm) (λ _. pure (ok perm)))
      ])
        k

unfoldable pub sys_ipc_can_send : ℕ → ℕ → ℕ → ℕ → M Kernel (Ret (Unit {0}))
unfolding send_page
sys_ipc_can_send envid value srcva perm = with_env envid false λ e. do
  k ← get
  if not (k.envs e).ipc_recving then pure (err ipc_not_recv) else (do
    c ← current
    try
        (if not (srcva == 0) && not ((k.envs e).ipc_dstva == 0)
          then send_page c e srcva perm
          else pure (ok 0))
        (λ got. do
          k' ← get
          modify (update_env e (receive (k'.envs c).id value got))
          pure (ok tt)))

unfoldable pub sys_set_pgfault_handler : ℕ → ℕ → ℕ → M Kernel (Ret (Unit {0}))
sys_set_pgfault_handler envid func xstacktop = with_env envid true λ e. do
  modify (update_env e (λ v. record v { pgfault_handler = func; xstacktop = xstacktop }))
  pure (ok tt)

-- The page is allocated first, and no error path gives it back.
unfoldable pub sys_mem_alloc : ℕ → ℕ → ℕ → M Kernel (Ret (Unit {0}))
sys_mem_alloc envid va perm k =
    let fill =
      (try page_alloc λ p. with_env envid false λ e. do
        kva ← kaddr (page2pa p)
        modify (zero_page kva)
        k ← get
        pgdir ← deref (k.envs e).pgdir
        page_insert pgdir p va perm) in
    if leb utop va then done (err inval) k else fill k

map_page : ℕ → ℕ → ℕ → ℕ → ℕ → M Kernel (Ret (Unit {0}))
map_page src srcva dst dstva perm = do
  k ← get
  from ← deref (k.envs src).pgdir
  (p, _) ← page_lookup from srcva
  k ← get
  elim p [
    | none ↦ pure (err inval)
    | some pp ↦ (do to ← deref (k.envs dst).pgdir; page_insert to pp dstva perm)
  ]

unfoldable pub sys_mem_map : ℕ → ℕ → ℕ → ℕ → ℕ → M Kernel (Ret (Unit {0}))
unfolding map_page
sys_mem_map srcid srcva dstid dstva perm k =
    if leb utop srcva || leb utop dstva
    then done (err inval) k
    else with_env srcid false
        (λ src. with_env dstid false (λ dst. map_page src srcva dst dstva perm)) k

unmap_page : ℕ → ℕ → M Kernel (Ret (Unit {0}))
unmap_page e va = do k ← get; pgdir ← deref (k.envs e).pgdir; page_remove pgdir va; pure (ok tt)

unfoldable pub sys_mem_unmap : ℕ → ℕ → M Kernel (Ret (Unit {0}))
unfolding unmap_page
sys_mem_unmap envid va k =
    if leb utop va then done (err inval) k else with_env envid false (λ e. unmap_page e va) k

-- The child's registers: those of the parent that the source copies, and eax = 0.
abbrev pub child_tf : Trapframe → Trapframe → Trapframe
child_tf parent tf = record tf {
  eax = 0;
  ebx = parent.ebx;
  ecx = parent.ecx;
  edx = parent.edx;
  edi = parent.edi;
  esi = parent.esi;
  ebp = parent.ebp;
  es = parent.es;
  ds = parent.ds;
  eip = parent.eip;
  cs = parent.cs;
  eflags = parent.eflags;
  esp = parent.esp;
}

unfoldable pub sys_env_alloc : M Kernel (Ret ℕ)
sys_env_alloc = do
  c ← current
  k ← get
  try (env_alloc (k.envs c).id) λ e. do
    k' ← get
    modify
        (update_env e (λ v. record v { status = not_runnable; tf = child_tf (k'.envs c).tf v.tf }))
    pure (ok (k'.envs e).id)

-- `status` is the number that the caller gives.
abbrev pub to_status : ℕ → Option Status
to_status n =
    if n == 0
    then some free
    else if n == 1
    then some runnable
    else if n == 2
    then some not_runnable
    else none

unfoldable pub sys_set_env_status : ℕ → ℕ → M Kernel (Ret (Unit {0}))
sys_set_env_status envid status = with_env envid false λ e. elim (to_status status) [
  | none ↦ pure (err inval)
  | some st ↦ (do modify (update_env e (λ v. record v { status = st })); pure (ok tt))
]

-- `tf_eflags |= FL_IF` and `tf_cs |= 3`
abbrev pub safe_tf : Trapframe → Trapframe
safe_tf tf = record tf { eflags = bit_or tf.eflags fl_if; cs = bit_or tf.cs 3 }

abbrev pub zero_of : Ret (Unit {0}) → Ret ℕ
zero_of (ok _) = ok 0
zero_of (err e) = err e

-- The result of a call: its own, 0 on success, or 0 whatever it returned.
abbrev pub code : M Kernel (Ret (Unit {0})) → M Kernel (Ret ℕ)
code m = do r ← m; pure (zero_of r)

abbrev pub always_zero : {A : Type 0} → M Kernel A → M Kernel (Ret ℕ)
always_zero m = do _ ← m; pure (ok 0)

-- The memory that a user address names is read by the processor: `fetch k va` is what it finds.
module _ (fetch : Kernel → ℕ → Trapframe) where
  unfoldable pub sys_set_trapframe : ℕ → ℕ → M Kernel (Ret (Unit {0}))
  sys_set_trapframe envid tf k =
      (do
        modify (λ k. record k { page_fault_mode = pfm_none })
        with_env envid true λ e. do
          let ltf = safe_tf (fetch k tf)
          k' ← get
          (if is_current e k'
              then modify (λ k. record k { utf = ltf })
              else modify (update_env e (λ v. record v { tf = ltf })))
          pure (ok tt))
        k

  -- The arms of `syscall`; `sys_cputs` only prints.
  unfoldable pub dispatch : ℕ → ℕ → ℕ → ℕ → ℕ → ℕ → M Kernel (Ret ℕ)
  dispatch sn a1 a2 a3 a4 a5 =
      if sn == 0
      then sys_getenvid
      else if sn == 1
      then pure (ok 0)
      else if sn == 2
      then sched_yield
      else if sn == 3
      then always_zero (sys_env_destroy a1)
      else if sn == 4
      then sys_env_alloc
      else if sn == 5
      then code (sys_ipc_can_send a1 a2 a3 a4)
      else if sn == 6
      then always_zero (sys_ipc_recv a1)
      else if sn == 7
      then code (sys_set_pgfault_handler a1 a2 a3)
      else if sn == 8
      then code (sys_set_env_status a1 a2)
      else if sn == 9
      then code (sys_mem_alloc a1 a2 a3)
      else if sn == 10
      then code (sys_mem_map a1 a2 a3 a4 a5)
      else if sn == 11
      then code (sys_mem_unmap a1 a2)
      else if sn == 12
      then code (sys_set_trapframe a1 a2)
      else if sn == 13
      then (λ _. panic)
      else if sn == 14
      then (do c ← cons_getc; pure (ok c))
      else if sn == 15
      then always_zero (sys_set_color a1)
      else pure (err inval)

  unfoldable pub syscall : ℕ → ℕ → ℕ → ℕ → ℕ → ℕ → M Kernel (Ret ℕ)
  unfolding dispatch
  syscall sn a1 a2 a3 a4 a5 = do
    modify (λ k. record k { page_fault_mode = pfm_kill })
    dispatch sn a1 a2 a3 a4 a5
