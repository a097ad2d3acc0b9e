-- ===== src/Kern/Env/Alloc.antt =====
-- `env_init`, `env_setup_vm` and `env_alloc`.
use demo2s.Base.{
  ℕ, zero, suc, ◌+◌, ◌*◌, ◌%◌, ◌^◌, ◌≤◌, ◌<◌, ◌≡◌, ◌≢◌, refl, some, [], ◌∷◌, List, arith, u32, ltb,
  ap, ◌∙◌, if◌then◌else◌, done, ok, update, bit_or,
}
use demo2s.Base.Bits.{bit_or-frame}
use demo2s.Kern.Mmu.{pdx, vpt, uvpt, page2pa, pte_p, pte_w, pte_u}
use demo2s.Kern.State.{Kernel, free, runnable}
use demo2s.Kern.Pmap.{kaddr_ok, page_alloc, set_word}
use demo2s.Kern.Pmap.Space.{frame}
use demo2s.Kern.Env.Ids.{mkenvid_value}
use demo2s.Kern.Env.{
  env_init, env_init_from, env_setup_vm, env_alloc, alloc_env, set_env, fresh_env,
}

-- The numbers from n to n + len - 1.
abbrev pub interval : ℕ → ℕ → List ℕ
interval n zero = []
interval n (suc len) = n ∷ interval (suc n) len

env_init_from_lem :
    (n len i : ℕ) (k : Kernel)
    → k.env_free_list ≡ interval n len
    → ((env_init_from n k).env_free_list ≡ interval 0 (n + len))
      × (((env_init_from n k).envs i).status ≡ (if ltb i n then free else (k.envs i).status))
unfolding env_init_from
env_init_from_lem zero len i k e = (rw e (ap (interval 0) (omega arith)), ground arith)
env_init_from_lem (suc n) len i k e =
    let k1 = record (set_env n (record (k.envs n) { status = free }) k) {
      env_free_list = n ∷ k.env_free_list;
    } in
    let rest = env_init_from_lem n (suc len) i k1 (rw e) in
    (rest.0 ∙ ap (interval 0) (omega arith), rest.1 ∙ ground arith)

-- `env_init` makes the free list 0, 1, ..., 1023 in this order, and marks all of these free.
pub env_init_lem :
    (k : Kernel) (i : ℕ)
    → i < 1024
    → ((env_init k).env_free_list ≡ interval 0 1024) × (((env_init k).envs i).status ≡ free)
unfolding env_init
env_init_lem k i lt =
    let r = env_init_from_lem 1024 0 i (record k { env_free_list = [] }) refl in
    (r.0, r.1 ∙ ground arith)

pub page_alloc-cons :
    (k : Kernel) (p : ℕ) (pages : List ℕ)
    → k.page_free_list ≡ p ∷ pages
    → page_alloc k ≡ done (ok p) (record k { page_free_list = pages })
unfolding page_alloc
page_alloc-cons k p pages e = rw e

-- The state after `env_setup_vm`.
abbrev set_up : ℕ → ℕ → List ℕ → Kernel → Kernel
set_up e p pages k =
    let pa = page2pa p in
    set_word (p, pdx uvpt) (bit_or (bit_or pa pte_p) pte_u)
      (set_word (p, pdx vpt) (bit_or (bit_or pa pte_p) pte_w)
        (record k {
          page_free_list = pages;
          envs = update k.envs e (record (k.envs e) { cr3 = pa; pgdir = some p });
          mem = update k.mem p (k.mem k.boot_pgdir);
        }))

env_setup_vm-set_up :
    (k : Kernel) (e p : ℕ) (pages : List ℕ)
    → k.page_free_list ≡ p ∷ pages
    → p < k.npage
    → k.npage ≤ 2 ^ 16
    → env_setup_vm e k ≡ done (ok tt) (set_up e p pages k)
unfolding env_setup_vm
env_setup_vm-set_up k e p pages pe inside small = rw (
  page_alloc-cons k p pages pe,
  kaddr_ok (page2pa p) p (record k { page_free_list = pages }) (omega arith) inside,
)

-- The entries at VPT and UVPT map the directory itself.
self_map :
    (p flag : ℕ) → p < 2 ^ 16 → flag < 4096 → frame (bit_or (bit_or (page2pa p) pte_p) flag) ≡ p
self_map p flag h f = omega (
  arith,
  bit_or-frame (bit_or (page2pa p) pte_p) flag f,
  bit_or-frame (page2pa p) pte_p (omega arith),
)

env_alloc-cons :
    (k : Kernel) (parent e : ℕ) (rest : List ℕ)
    → k.env_free_list ≡ e ∷ rest
    → env_alloc parent k ≡ alloc_env parent e rest k
unfolding env_alloc
env_alloc-cons k parent e rest h = rw h

-- With an environment and a page to spare `env_alloc` takes the first of each off its list. The new
-- environment is runnable and belongs to the caller; its id has the slot in the low ten bits and the
-- next count above. Its page directory is the new page, whose entries are those of the kernel's
-- except VPT and UVPT, which map the page itself; its reference count is left as it was.
pub env_alloc_lem :
    (k : Kernel) (parent e p i : ℕ) (rest pages : List ℕ)
    → k.env_free_list ≡ e ∷ rest
    → k.page_free_list ≡ p ∷ pages
    → p < k.npage
    → k.npage ≤ 2 ^ 16
    → e < 1024
    → i ≢ pdx vpt
    → i ≢ pdx uvpt
    → (k' : Kernel) × (env_alloc parent k ≡ done (ok e) k')
      × (k'.env_free_list ≡ rest)
      × (k'.page_free_list ≡ pages)
      × ((k'.envs e).status ≡ runnable)
      × ((k'.envs e).pgdir ≡ some p)
      × ((k'.envs e).cr3 ≡ p * 4096)
      × ((k'.envs e).parent_id ≡ parent)
      × ((k'.envs e).id ≡ (k.next_env_id + 1) % 2 ^ 21 * 2 ^ 11 + e)
      × (k'.refs p ≡ k.refs p)
      × (frame (k'.mem p (pdx vpt)) ≡ p)
      × (frame (k'.mem p (pdx uvpt)) ≡ p)
      × (k'.mem p i ≡ k.mem k.boot_pgdir i)
unfolding env_alloc
env_alloc_lem k parent e p i rest pages ee pe inside small lt n1 n2 = (
  record (set_env e
      (fresh_env e ((k.next_env_id + 1) % 2 ^ 21 * 2 ^ 11 + e) parent ((set_up e p pages k).envs e))
      (record (set_up e p pages k) { next_env_id = u32 (k.next_env_id + 1) })) {
        env_free_list = rest;
      },
  env_alloc-cons k parent e rest ee
      ∙ rw (
        env_setup_vm-set_up k e p pages pe inside small,
        mkenvid_value e (set_up e p pages k) lt,
      ),
  refl,
  refl,
  ground arith,
  ground arith,
  ground arith,
  ground arith,
  ground arith,
  refl,
  ap frame (ground arith) ∙ self_map p pte_w (omega arith) (omega arith),
  ap frame (ground arith) ∙ self_map p pte_u (omega arith) (omega arith),
  ground arith,
)
