-- ===== src/Kern/Trap/Push.antt =====
-- What `page_fault_handler` of kern/trap.c leaves on the exception stack.
use demo2s.Base.{
  if_false, ℕ, zero, suc, ◌+◌, ◌-◌, ◌*◌, ◌/◌, ◌%◌, ◌^◌, ◌≤◌, ◌<◌, ◌≡◌, ◌≢◌, refl, ◌∙◌, false,
  Option, some, List, [], ◌∷◌, M, done, ◌>>=◌, ◌==◌, u32, update, arith, length, update_other,
  ==_of_ne, ap, leave,
}
use demo2s.Kern.Mmu.{pdx, ptx, ppn}
use demo2s.Kern.State.{deref, Kernel, Trapframe}
use demo2s.Kern.Pmap.{set_word}
use demo2s.Kern.Sched.{env_run, run_state}
use demo2s.Kern.Trap.{
  written_page, store_aligned, store, store_down, fault_frame, frame_top, push_fault, push_frame,
  page_fault_handler,
}

-- Writing the words ws downwards from word o of page p.
abbrev pub fill : ℕ → ℕ → List ℕ → Kernel → Kernel
fill p o [] k = k
fill p o (w ∷ ws) k = fill p (o - 1) ws (set_word (p, o) w k)

-- Page p is not part of the current page directory's path to va.
pub record IsStack (va p : ℕ) (k : Kernel) : Type 0 where
  pub mapped : written_page va k ≡ some p
  pub not_dir : p ≢ ppn k.cr3
  pub not_table : p ≢ ppn (k.mem (ppn k.cr3) (pdx va))

store_run :
    (va w p : ℕ) (k : Kernel)
    → va % 4 ≡ 0
    → written_page va k ≡ some p
    → store va w k ≡ done tt (set_word (p, va % 4096 / 4) w k)
unfolding store store_aligned
store_run va w p k al m = ground (arith, al, m)

-- A write to the stack page leaves the path to it as it was.
set_word-IsStack : (va p i w : ℕ) (k : Kernel) → IsStack va p k → IsStack va p (set_word (p, i) w k)
unfolding written_page
set_word-IsStack va p i w k s = record {
  mapped =
      rw
        (
          update_other k.mem p (ppn k.cr3) (update (k.mem p) i w) s.not_dir,
          update_other k.mem p (ppn (k.mem (ppn k.cr3) (pdx va))) (update (k.mem p) i w)
              s.not_table,
        )
        s.mapped;
  not_dir = s.not_dir;
  not_table = rw (update_other k.mem p (ppn k.cr3) (update (k.mem p) i w) s.not_dir) s.not_table;
}

-- The next word down is on the same page.
one_down-IsStack :
    (va p : ℕ) (k : Kernel)
    → 4 ≤ va % 4096
    → va < 2 ^ 32
    → IsStack va p k
    → IsStack (u32 (va + (2 ^ 32 - 4))) p k
unfolding written_page
one_down-IsStack va p k room small s =
    let same_dir : pdx (u32 (va + (2 ^ 32 - 4))) ≡ pdx va = omega (arith, room, small) in
    let same_table : ptx (u32 (va + (2 ^ 32 - 4))) ≡ ptx va = omega (arith, room, small) in
    record {
      mapped = rw (same_dir, same_table) s.mapped;
      not_dir = s.not_dir;
      not_table = rw same_dir s.not_table;
    }

down_run :
    (ws : List ℕ) (va p : ℕ) (k : Kernel)
    → va % 4 ≡ 0
    → va < 2 ^ 32
    → 4 * length ws ≤ va % 4096 + 4
    → IsStack va p k
    → store_down va ws k ≡ done tt (fill p (va % 4096 / 4) ws k)
unfolding store_down
down_run [] va p k al small room s = refl
down_run (w ∷ []) va p k al small room s = rw (store_run va w p k al s.mapped) refl
down_run (w ∷ w' ∷ ws) va p k al small room s =
    let next = u32 (va + (2 ^ 32 - 4)) in
    let inside : 4 ≤ va % 4096 = omega (arith, room) in
    let o : next % 4096 / 4 ≡ va % 4096 / 4 - 1 = omega (arith, inside, small, al) in
    let rest =
      down_run (w' ∷ ws) next p (set_word (p, va % 4096 / 4) w k) (omega (arith, al, small, inside))
        (omega arith) (omega (arith, room, inside, small))
        (set_word-IsStack next p (va % 4096 / 4) w k (one_down-IsStack va p k inside small s)) in
    rw (store_run va w p k al s.mapped) (rest ∙ rw o refl)

fill_other : (ws : List ℕ) (p o q : ℕ) (k : Kernel) → p ≢ q → (fill p o ws k).mem q ≡ k.mem q
fill_other [] p o q k ne = refl
fill_other (w ∷ ws) p o q k ne =
    fill_other ws p (o - 1) q (set_word (p, o) w k) ne
    ∙ update_other k.mem p q (update (k.mem p) o w) ne

-- The words above the place where the filling starts are kept.
fill_above : (ws : List ℕ) (p o i : ℕ) (k : Kernel) → o < i → (fill p o ws k).mem p i ≡ k.mem p i
fill_above [] p o i k lt = refl
fill_above (w ∷ ws) p o i k lt =
    fill_above ws p (o - 1) i (set_word (p, o) w k) (omega (arith, lt)) ∙ ground (arith, lt)

set_word_here : (p o w : ℕ) (k : Kernel) → (set_word (p, o) w k).mem p o ≡ w
set_word_here p o w k = ground arith

abbrev nth : ℕ → List ℕ → ℕ
nth i [] = 0
nth zero (w ∷ ws) = w
nth (suc i) (w ∷ ws) = nth i ws

minus_zero : (o : ℕ) → o - 0 ≡ o
minus_zero o = omega arith

fill-nth :
    (ws : List ℕ) (p o i : ℕ) (k : Kernel)
    → i < length ws
    → length ws ≤ o + 1
    → (fill p o ws k).mem p (o - i) ≡ nth i ws
fill-nth [] p o i k lt room = absurd (omega (arith, lt))
fill-nth (w ∷ []) p o zero k lt room = rw (minus_zero o) (set_word_here p o w k)
fill-nth (w ∷ w' ∷ ws) p o zero k lt room = rw (minus_zero o) (
    fill_above (w' ∷ ws) p (o - 1) o (set_word (p, o) w k) (omega (arith, room))
    ∙ set_word_here p o w k)
fill-nth (w ∷ ws) p o (suc i) k lt room =
    let same : o - suc i ≡ o - 1 - i = omega arith in
    rw same
      (fill-nth ws p (o - 1) i (set_word (p, o) w k) (omega (arith, lt)) (omega (arith, room, lt)))

-- The j-th word from the bottom of ten is the i-th from the top.
frame_word :
    (ws : List ℕ) (p top i j : ℕ) (k : Kernel)
    → top % 4 ≡ 0
    → top < 2 ^ 32
    → 36 ≤ top % 4096
    → length ws ≡ 10
    → i + j ≡ 9
    → (fill p (top % 4096 / 4) ws k).mem p (u32 (top + (2 ^ 32 - 36)) % 4096 / 4 + j) ≡ nth i ws
frame_word ws p top i j k al small room len e =
    let place : u32 (top + (2 ^ 32 - 36)) % 4096 / 4 + j ≡ top % 4096 / 4 - i =
      omega (arith, al, small, room, e) in
    rw place
      (fill-nth ws p (top % 4096 / 4) i k (omega (arith, len, e)) (omega (arith, len, room, al)))

fill_envs : (ws : List ℕ) (p o : ℕ) (k : Kernel) → (fill p o ws k).envs ≡ k.envs
fill_envs [] p o k = refl
fill_envs (w ∷ ws) p o k = fill_envs ws p (o - 1) (set_word (p, o) w k)

fill_curenv : (ws : List ℕ) (p o : ℕ) (k : Kernel) → (fill p o ws k).curenv ≡ k.curenv
fill_curenv [] p o k = refl
fill_curenv (w ∷ ws) p o k = fill_curenv ws p (o - 1) (set_word (p, o) w k)

-- The frame for the handler, and the kernel when it is about to run the environment
pushed : ℕ → ℕ → Trapframe → Trapframe
pushed tos handler tf = record tf { eip = handler; esp = u32 (tos + (2 ^ 32 - 36)) }

before_run : ℕ → ℕ → ℕ → ℕ → Trapframe → Kernel → Kernel
unfolding pushed
before_run tos handler va p tf k = record (fill p (tos % 4096 / 4) (fault_frame va tf) k) {
  utf = pushed tos handler tf;
}

push_frame_run :
    (c tos handler va p : ℕ) (tf : Trapframe) (k : Kernel)
    → tos % 4 ≡ 0
    → tos < 2 ^ 32
    → 36 ≤ tos % 4096
    → IsStack tos p k
    → push_frame c tos handler va tf k ≡ leave (run_state c (before_run tos handler va p tf k))
unfolding push_frame env_run before_run pushed
push_frame_run c tos handler va p tf k al small room s =
    rw (down_run (fault_frame va tf) tos p k al small (omega (arith, room)) s) refl

-- `env_run` of the current environment saves the frame and counts the run.
record IsRun (c : ℕ) (k k' : Kernel) : Type 0 where
  frame : (k'.envs c).tf ≡ k.utf
  counted : (k'.envs c).runs ≡ ((k.envs c).runs + 1) % 2 ^ 32
  current : k'.curenv ≡ some c
  space : k'.cr3 ≡ (k.envs c).cr3
  memory : k'.mem ≡ k.mem

run_state-IsRun : (c : ℕ) (k : Kernel) → k.curenv ≡ some c → IsRun c k (run_state c k)
unfolding run_state
run_state-IsRun c k cur = record {
  frame = rw cur (ground arith);
  counted = rw cur (ground arith);
  current = refl;
  space = rw cur (ground arith);
  memory = rw cur refl;
}

current_known :
    {A : Type 0} (o : Option ℕ) (c : ℕ) (f : ℕ → M Kernel A) (k : Kernel)
    → o ≡ some c
    → (deref o >>= f) k ≡ f c k
current_known o c f k e = rw e refl

user_fault :
    (c va : ℕ) (tf : Trapframe) (k : Kernel)
    → (tf.cs % 2 == 0) ≡ false
    → k.curenv ≡ some c
    → page_fault_handler va tf k ≡ push_fault c va tf k
unfolding page_fault_handler
user_fault c va tf k user cur =
    if_false (tf.cs % 2 == 0) _ ((deref k.curenv >>= λ c. push_fault c va tf) k) user
    ∙ current_known k.curenv c (λ c. push_fault c va tf) k cur

handler_run :
    (c va : ℕ) (tf : Trapframe) (k : Kernel)
    → ((k.envs c).pgfault_handler == 0) ≡ false
    → push_fault c va tf k
      ≡ push_frame c (frame_top (k.envs c).xstacktop tf.esp) (k.envs c).pgfault_handler va tf k
unfolding push_fault
handler_run c va tf k h =
    if_false ((k.envs c).pgfault_handler == 0) _
      (push_frame c (frame_top (k.envs c).xstacktop tf.esp) (k.envs c).pgfault_handler va tf k) h

-- A page fault in user mode, when the environment has a handler and the frame has room on a mapped and
-- writable page p of its exception stack, at an aligned place: `page_fault_handler` leaves for the environment
-- itself, in its own address space, with one more run counted and the frame saved in it, by which it goes on
-- in the handler with the stack pointer at five words: the fault's address, error code, stack pointer, flags
-- and instruction. No other page changes. The stack starts at `frame_top`, and the page is
-- none of the page tables on its path.
pub page_fault_handler_lem :
    (c va p : ℕ) (tf : Trapframe) (k : Kernel)
    → tf.cs % 2 ≡ 1
    → k.curenv ≡ some c
    → (k.envs c).pgfault_handler ≢ 0
    → frame_top (k.envs c).xstacktop tf.esp % 4 ≡ 0
    → frame_top (k.envs c).xstacktop tf.esp < 2 ^ 32
    → 36 ≤ frame_top (k.envs c).xstacktop tf.esp % 4096
    → IsStack (frame_top (k.envs c).xstacktop tf.esp) p k
    → (esp : ℕ) × (k' : Kernel) × (page_fault_handler va tf k ≡ leave k')
      × ((k'.envs c).tf ≡ record tf { eip = (k.envs c).pgfault_handler; esp = esp })
      × (k'.curenv ≡ some c)
      × (k'.cr3 ≡ (k.envs c).cr3)
      × ((k'.envs c).runs ≡ ((k.envs c).runs + 1) % 2 ^ 32)
      × (esp + 36 ≡ frame_top (k.envs c).xstacktop tf.esp)
      × (k'.mem p (esp % 4096 / 4 + 0) ≡ va)
      × (k'.mem p (esp % 4096 / 4 + 1) ≡ tf.errcode)
      × (k'.mem p (esp % 4096 / 4 + 2) ≡ tf.esp)
      × (k'.mem p (esp % 4096 / 4 + 3) ≡ tf.eflags)
      × (k'.mem p (esp % 4096 / 4 + 4) ≡ tf.eip)
      × ((q : ℕ) → p ≢ q → k'.mem q ≡ k.mem q)
unfolding before_run pushed
page_fault_handler_lem c va p tf k user cur h al small room s =
    let top = frame_top (k.envs c).xstacktop tf.esp in
    let handler = (k.envs c).pgfault_handler in
    let o = top % 4096 / 4 in
    let ws = fault_frame va tf in
    let filled = fill p o ws k in
    let esp = u32 (top + (2 ^ 32 - 36)) in
    let same : filled.envs ≡ k.envs = fill_envs ws p o k in
    let k1 = before_run top handler va p tf k in
    let r : IsRun c k1 (run_state c k1) = run_state-IsRun c k1 (fill_curenv ws p o k ∙ cur) in
    let at : (i j : ℕ) → i + j ≡ 9 → (run_state c k1).mem p (esp % 4096 / 4 + j) ≡ nth i ws =
      λ i j e.
        ap (λ m. m p (esp % 4096 / 4 + j)) r.memory
        ∙ frame_word ws p top i j k al small room refl e in
    (
      esp,
      run_state c k1,
      user_fault c va tf k (==_of_ne (tf.cs % 2) 0 (omega (arith, user))) cur
          ∙ handler_run c va tf k (==_of_ne handler 0 h)
          ∙ push_frame_run c top handler va p tf k al small room s,
      r.frame,
      r.current,
      r.space ∙ ap (λ f. (f c).cr3) same,
      r.counted ∙ ap (λ f. ((f c).runs + 1) % 2 ^ 32) same,
      omega (arith, room, small),
      at 9 0 refl,
      at 8 1 refl,
      at 7 2 refl,
      at 6 3 refl,
      at 5 4 refl,
      λ q ne. ap (λ m. m q) r.memory ∙ fill_other ws p o q k ne,
    )
