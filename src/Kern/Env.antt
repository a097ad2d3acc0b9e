-- ===== src/Kern/Env.antt =====
-- kern/env.c and kern/sched.c: environments, their creation and destruction, and the scheduler. An
-- environment is its index in `envs`; `env_run` does not return, and neither does what ends in it.
pub mod Ids
pub mod Alloc
use demo2s.Base.{
  ℕ, zero, suc, ◌+◌, ◌-◌, ◌*◌, ◌/◌, ◌%◌, ◌^◌, Bool, true, false, not, ◌||◌, ◌&&◌, Option, none,
  some, List, [], ◌∷◌, bit_or, Run, M, done, leave, panic, pure, and_then, ◌>>=◌, ◌>>◌, get, modify,
  try, Ret, ok, err, bad_env, no_free_env, u32, update, ltb, ◌==◌, if◌then◌else◌,
}
use demo2s.Kern.Mmu.{
  pdx, present, pte_addr, pte_p, pte_w, pte_u, vpt, uvpt, utop, ustacktop, utext, by2pg, round_page,
  page2pa,
}
use demo2s.Kern.State.{Kernel, Env, Trapframe, Status, free, runnable, not_runnable, deref}
use demo2s.Kern.Pmap.{page_alloc, page_insert, page_remove, page_decref, pa2page, kaddr, set_word}

abbrev pub nenv : ℕ
nenv = 1024

-- `ENVX(envid)`
abbrev pub envx : ℕ → ℕ
envx envid = envid % nenv

abbrev pub set_env : ℕ → Env → Kernel → Kernel
set_env e v k = record k { envs = update k.envs e v }

abbrev pub is_free : Status → Bool
is_free free = true
is_free _ = false

abbrev pub is_runnable : Status → Bool
is_runnable runnable = true
is_runnable _ = false

unfoldable pub mkenvid : ℕ → M Kernel ℕ
mkenvid e k =
    let n = u32 (k.next_env_id + 1) in
    done (bit_or (u32 (n * 2 ^ 11)) e) (record k { next_env_id = n })

-- The success value is `*penv`, which is `curenv`, perhaps null, for the id 0.
unfoldable pub envid2env : ℕ → Bool → M Kernel (Ret (Option ℕ))
envid2env envid checkperm k =
    let e = envx envid in
    if envid == 0
    then done (ok k.curenv) k
    else if is_free (k.envs e).status || not ((k.envs e).id == envid)
    then done (err bad_env) k
    else if checkperm
    then (do
      c ← deref k.curenv
      pure (
          if not ((k.envs e).parent_id == (k.envs c).id) && not ((k.envs e).id == (k.envs c).id)
          then err bad_env
          else ok (some e)))
        k
    else done (ok (some e)) k

-- The loop of `env_init`, from the index below the given one down to 0.
unfoldable pub env_init_from : ℕ → Kernel → Kernel
env_init_from zero k = k
env_init_from (suc i) k =
    env_init_from i (record (set_env i (record (k.envs i) { status = free }) k) {
      env_free_list = i ∷ k.env_free_list;
    })

unfoldable pub env_init : Kernel → Kernel
env_init k = env_init_from nenv (record k { env_free_list = [] })

-- The page directory starts as a copy of the kernel's, with two entries that map itself. Its own
-- page is not counted: the source does not touch `pp_ref` here.
unfoldable pub env_setup_vm : ℕ → M Kernel (Ret (Unit {0}))
env_setup_vm e = try page_alloc λ p. do
  kva ← kaddr (page2pa p)
  k ← get
  modify (set_env e (record (k.envs e) { cr3 = page2pa p; pgdir = some kva }))
  modify (λ k'. record k' { mem = update k'.mem kva (k'.mem k'.boot_pgdir) })
  modify (set_word (kva, pdx vpt) (bit_or (bit_or (page2pa p) pte_p) pte_w))
  modify (set_word (kva, pdx uvpt) (bit_or (bit_or (page2pa p) pte_p) pte_u))
  pure (ok tt)

-- The segment selectors GD_UD | 3 and GD_UT | 3, and the bits of eflags.
abbrev pub user_data : ℕ
user_data = 0x23

abbrev pub user_text : ℕ
user_text = 0x1b

abbrev pub fl_if : ℕ
fl_if = 0x200

abbrev pub fl_iopl : ℕ
fl_iopl = 0x3000

-- The fields that `env_alloc` sets once the address space is there; environment 1 is the file
-- server, which may use the I/O ports.
abbrev pub fresh_env : ℕ → ℕ → ℕ → Env → Env
fresh_env e id parent v = record v {
  tf = record (v.tf) {
    ds = user_data;
    es = user_data;
    ss = user_data;
    esp = ustacktop;
    cs = user_text;
    eip = utext + 0x20;
    eflags =
        (let flags = bit_or v.tf.eflags fl_if in if e == 1 then bit_or flags fl_iopl else flags);
  };
  id = id;
  parent_id = parent;
  status = runnable;
  ipc_recving = false;
  pgfault_handler = 0;
  xstacktop = 0;
  runs = 0;
}

-- `env_alloc` for the first environment of the free list; LIST_REMOVE takes it off.
alloc_env : ℕ → ℕ → List ℕ → M Kernel (Ret ℕ)
alloc_env parent e rest = try (env_setup_vm e) λ _. do
  id ← mkenvid e
  k ← get
  modify (set_env e (fresh_env e id parent (k.envs e)))
  modify (λ k'. record k' { env_free_list = rest })
  pure (ok e)

unfoldable pub env_alloc : ℕ → M Kernel (Ret ℕ)
unfolding alloc_env
env_alloc parent k = elim k.env_free_list [
  | [] ↦ done (err no_free_env) k
  | e ∷ rest ↦ alloc_env parent e rest k
]

-- `load_icode`: the stack page, then the pages of the binary, given by its 32-bit words. A failed
-- `page_alloc` ends it without a word, and the results of `page_insert` are dropped.
load_pages : ℕ → (ℕ → ℕ) → ℕ → ℕ → M Kernel (Unit {0})
load_pages pgdir binary i zero = pure tt
load_pages pgdir binary i (suc left) = do
  r ← page_alloc
  elim r [
    | err _ ↦ pure tt
    | ok p ↦ (do
      _ ← page_insert pgdir p (utext + i * by2pg) (pte_w + pte_u)
      kva ← kaddr (page2pa p)
      modify (λ k. record k { mem = update k.mem kva (λ j. binary (i * 1024 + j)) })
      load_pages pgdir binary (i + 1) left)
  ]

unfoldable pub load_icode : ℕ → (ℕ → ℕ) → ℕ → M Kernel (Unit {0})
unfolding load_pages
load_icode e binary size = do
  r ← page_alloc
  elim r [
    | err _ ↦ pure tt
    | ok p ↦ (do
      k ← get
      pgdir ← deref (k.envs e).pgdir
      _ ← page_insert pgdir p (ustacktop - by2pg) (pte_w + pte_u)
      load_pages pgdir binary 0 (round_page size / by2pg))
  ]

unfoldable pub env_create : (ℕ → ℕ) → ℕ → M Kernel (Unit {0})
unfolding env_alloc load_icode
env_create binary size = do
  r ← env_alloc 0
  elim r [ err _ ↦ (λ _. panic) | ok e ↦ load_icode e binary size ]

-- `env_free`: one page table, from the entry `pteno` on; then the tables below UTOP, from `pdeno` on.
free_ptes : ℕ → ℕ → ℕ → ℕ → ℕ → M Kernel (Unit {0})
free_ptes pgdir pt pdeno pteno zero = pure tt
free_ptes pgdir pt pdeno pteno (suc left) = do
  k ← get
  (if present (k.mem pt pteno)
      then page_remove pgdir (bit_or (pdeno * 2 ^ 22) (pteno * 2 ^ 12))
      else pure tt)
  free_ptes pgdir pt pdeno (pteno + 1) left

free_table : ℕ → ℕ → M Kernel (Unit {0})
unfolding free_ptes
free_table pgdir pdeno k =
    if not (present (k.mem pgdir pdeno))
    then done tt k
    else free_it (pte_addr (k.mem pgdir pdeno)) k
  where
    free_it : ℕ → M Kernel (Unit {0})
    free_it pa = do
      pt ← kaddr pa
      free_ptes pgdir pt pdeno 0 1024
      modify (set_word (pgdir, pdeno) 0)
      page ← pa2page pa
      modify (page_decref page)

free_tables : ℕ → ℕ → ℕ → M Kernel (Unit {0})
unfolding free_table
free_tables pgdir pdeno zero = pure tt
free_tables pgdir pdeno (suc left) = do free_table pgdir pdeno; free_tables pgdir (pdeno + 1) left

unfoldable pub env_free : ℕ → M Kernel (Unit {0})
unfolding free_tables
env_free e = do
  k ← get
  pgdir ← deref (k.envs e).pgdir
  free_tables pgdir 0 (pdx utop)
  k ← get
  let pa = (k.envs e).cr3
  modify (set_env e (record (k.envs e) { pgdir = none; cr3 = 0 }))
  page ← pa2page pa
  modify (page_decref page)
  k ← get
  modify (set_env e (record (k.envs e) { status = free }))
  modify (λ k. record k { env_free_list = e ∷ k.env_free_list })
