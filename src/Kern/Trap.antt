-- ===== src/Kern/Trap.antt =====
-- kern/trap.c: `trap` and `page_fault_handler`. The frame of a trap from user mode is `utf`; a call of
-- `trap` takes the frame and ends with the frame that the handler leaves for the return. The address of
-- a page fault (`rcr2`) and the characters that a device has are arguments. What is printed is left out.
pub mod Push
use demo2s.Base.{
  ℕ, zero, suc, ◌+◌, ◌-◌, ◌*◌, ◌/◌, ◌%◌, ◌^◌, Bool, true, false, not, ◌||◌, ◌&&◌, Option, none,
  some, List, [], ◌∷◌, Run, M, done, leave, panic, pure, and_then, ◌>>=◌, ◌>>◌, get, modify, Ret,
  ok, err, Error, unspecified, bad_env, inval, no_mem, no_free_env, ipc_not_recv, no_disk, max_open,
  not_found, bad_path, file_exists, not_exec, ltb, leb, ◌==◌, if◌then◌else◌, u32,
}
use demo2s.Kern.Mmu.{pdx, ptx, ppn, present, pte_w, by2pg}
use demo2s.Kern.State.{Kernel, Env, Trapframe, pfm_none, pfm_kill, FaultMode, deref}
use demo2s.Kern.Pmap.{set_word}
use demo2s.Kern.Sched.{env_run, sched_yield, env_destroy}
use demo2s.Kern.Console.{cons_intr}
use demo2s.Kern.Syscall.{syscall, update_env}

abbrev pub t_pgflt : ℕ
t_pgflt = 14

abbrev pub t_syscall : ℕ
t_syscall = 0x30

abbrev pub irq_offset : ℕ
irq_offset = 0x20

abbrev pub ulim : ℕ
ulim = 0xef800000

abbrev pub trup : ℕ → ℕ
trup p = if ltb ulim p then ulim else p

-- inc/error.h
abbrev pub error_number : Error → ℕ
error_number unspecified = 1
error_number bad_env = 2
error_number inval = 3
error_number no_mem = 4
error_number no_free_env = 5
error_number ipc_not_recv = 6
error_number no_disk = 7
error_number max_open = 8
error_number not_found = 9
error_number bad_path = 10
error_number file_exists = 11
error_number not_exec = 12

-- The word that a call leaves in eax.
abbrev pub eax_of : Ret ℕ → ℕ
eax_of (ok v) = u32 v
eax_of (err e) = 2 ^ 32 - error_number e

-- The page that the kernel writes to at an address: the processor walks the current page directory,
-- whose entries must be present and writable, since the kernel sets CR0_WP.
abbrev pub writable : ℕ → Bool
writable pte = present pte && pte / 2 % 2 == 1

unfoldable pub written_page : ℕ → Kernel → Option ℕ
written_page va k =
    let pde = k.mem (ppn k.cr3) (pdx va) in
    let pte = k.mem (ppn pde) (ptx va) in
    if writable pde && writable pte then some (ppn pte) else none

-- `page_fault_handler` on a fault in kernel mode.
unfoldable pub kernel_fault : M Kernel (Unit {0})
unfolding env_destroy
kernel_fault k = elim k.page_fault_mode [
  | pfm_none ↦ panic
  | pfm_kill ↦
      (do e ← deref k.curenv; env_destroy e; modify (λ k. record k { page_fault_mode = pfm_none }))
        k
]

-- A store that faults ends the handler; after `kernel_fault` there is nothing left of the environment.
abbrev pub fault_in_store : Run Kernel (Unit {0}) → Run Kernel (Unit {0})
fault_in_store (done a k) = leave k
fault_in_store (leave k) = leave k
fault_in_store panic = panic

-- A store to an aligned address, and the two halves of one that is not.
unfoldable pub store_aligned : ℕ → ℕ → M Kernel (Unit {0})
unfolding written_page kernel_fault
store_aligned va w k = elim (written_page va k) [
  | none ↦ fault_in_store (kernel_fault k)
  | some p ↦ done tt (set_word (p, va % by2pg / 4) w k)
]

-- The words at the address rounded down and at the next one.
abbrev pub word_at : ℕ → Kernel → ℕ
word_at va k = elim (written_page va k) [ none ↦ 0 | some p ↦ k.mem p (va % by2pg / 4) ]

abbrev pub is_missing : ℕ → Kernel → Bool
is_missing va k = elim (written_page va k) [ none ↦ true | some p ↦ false ]

-- Neither half is written when the other one faults.
unfoldable pub store : ℕ → ℕ → M Kernel (Unit {0})
unfolding store_aligned written_page
store va w k =
    let n = va % 4 in
    let low = u32 (va - n) in
    let high = u32 (va - n + 4) in
    if n == 0 || is_missing low k
    then store_aligned va w k
    else if is_missing high k
    then store_aligned high w k
    else (do
      store_aligned high (word_at high k / 2 ^ (8 * n) * 2 ^ (8 * n) + w / 2 ^ (32 - 8 * n))
      store_aligned low (word_at low k % 2 ^ (8 * n) + u32 (w * 2 ^ (8 * n))))
        k

-- `tos[0] = w0; tos[-1] = w1; ...`
unfoldable pub store_down : ℕ → List ℕ → M Kernel (Unit {0})
unfolding store
store_down tos [] k = done tt k
store_down tos (w ∷ ws) k = (do store tos w; store_down (u32 (tos + (2 ^ 32 - 4))) ws) k

-- The frame that the user's handler finds, from the top down.
abbrev pub fault_frame : ℕ → Trapframe → List ℕ
fault_frame va tf = 0 ∷ 0 ∷ 0 ∷ 0 ∷ 0 ∷ tf.eip ∷ tf.eflags ∷ tf.esp ∷ tf.errcode ∷ va ∷ []

-- Where the frame starts: at the top of the exception stack, or below a fault that is being handled.
abbrev pub frame_top : ℕ → ℕ → ℕ
frame_top xstacktop esp =
    if leb (u32 (xstacktop + (2 ^ 32 - by2pg))) esp && ltb esp xstacktop
    then u32 (esp + (2 ^ 32 - 4))
    else trup (u32 (xstacktop + (2 ^ 32 - 4)))

-- `tf` is `UTF`, which `env_run` saves.
unfoldable pub push_frame : ℕ → ℕ → ℕ → ℕ → Trapframe → M Kernel Trapframe
unfolding env_run
push_frame c tos handler va tf k =
    (do
      store_down tos (fault_frame va tf)
      modify (λ k. record k { utf = record tf { eip = handler; esp = u32 (tos + (2 ^ 32 - 36)) } })
      env_run c)
      k

unfoldable pub push_fault : ℕ → ℕ → Trapframe → M Kernel Trapframe
unfolding push_frame env_destroy
push_fault c va tf k =
    if (k.envs c).pgfault_handler == 0
    then (do env_destroy c; pure tf) k
    else push_frame c (frame_top (k.envs c).xstacktop tf.esp) (k.envs c).pgfault_handler va tf k

unfoldable pub page_fault_handler : ℕ → Trapframe → M Kernel Trapframe
unfolding push_fault kernel_fault
page_fault_handler va tf k =
    if tf.cs % 2 == 0
    then (do kernel_fault; pure tf) k
    else (do c ← deref k.curenv; push_fault c va tf) k

-- The memory that a user address names is read by the processor, as in kern/syscall.c.
module _ (fetch : Kernel → ℕ → Trapframe) where
  -- The system call with the registers of the frame, which is first saved in the environment. The frame
  -- is `utf`, which the call may have replaced.
  unfoldable pub trap_syscall : Trapframe → M Kernel Trapframe
  trap_syscall tf k0 =
      (do
        modify (λ k. elim k.curenv [
          | none ↦ k
          | some c ↦ update_env c (λ e. record e { tf = k.utf }) k
        ])
        r ← syscall fetch tf.eax tf.edx tf.ecx tf.ebx tf.edi tf.esi
        k ← get
        pure (record (k.utf) { eax = eax_of r }))
        k0

  -- `chars` is what the keyboard or the serial line gives.
  unfoldable pub trap : ℕ → List ℕ → Trapframe → M Kernel Trapframe
  unfolding page_fault_handler trap_syscall sched_yield cons_intr
  trap va chars tf =
      if tf.trapno == t_pgflt
      then page_fault_handler va tf
      else if tf.trapno == t_syscall
      then trap_syscall tf
      else if tf.trapno == irq_offset
      then sched_yield
      else if tf.trapno == irq_offset + 4 || tf.trapno == irq_offset + 1
      then (do cons_intr chars; pure tf)
      else if leb irq_offset tf.trapno && leb tf.trapno (irq_offset + 15)
      then pure tf
      else (λ k. panic)
