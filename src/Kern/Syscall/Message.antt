-- ===== src/Kern/Syscall/Message.antt =====
-- `sys_ipc_can_send` with a page.
use demo2s.Base.{
  ℕ, ◌+◌, ◌*◌, ◌/◌, ◌<◌, ◌≡◌, ◌≢◌, refl, ◌∙◌, ap, Bool, true, false, some, arith, ◌==◌, leb, ◌||◌,
  ◌&&◌, if◌then◌else◌, done, ok, err, inval, Bool-cases, inl, inr, not, Error, Option, subst, sym,
}
use demo2s.Kern.Mmu.{present, pdx, ppn, utop, mk_pte_lem}
use demo2s.Kern.State.{Kernel, runnable, deref}
use demo2s.Kern.Pmap.{page_lookup}
use demo2s.Kern.Pmap.Space.{Space, HasTable, entry, frame}
use demo2s.Kern.Pmap.Remove.{entry_ptr}
use demo2s.Kern.Pmap.Alloc.{page_lookup_lem}
use demo2s.Kern.Pmap.Insert.{
  inserted, IsMappable, page_insert-inserted, inserted-entry, inserted-envs,
}
use demo2s.Kern.Env.{envid2env}
use demo2s.Kern.Syscall.{sys_ipc_can_send, send_page, bad_perm, update_env, receive}

lookup_run :
    (ps srcva : ℕ) (k : Kernel)
    → Space ps k
    → srcva < utop
    → HasTable ps k.mem (pdx srcva)
    → frame (entry ps k.mem srcva) < k.npage
    → page_lookup ps srcva k
      ≡ done (some (frame (entry ps k.mem srcva)), some (entry_ptr ps k srcva)) k
lookup_run ps srcva k s low has inside = page_lookup_lem ps k srcva s low inside ∙ rw has refl

both : (a b : ℕ) → a ≢ 0 → b ≢ 0 → (not (a == 0) && not (b == 0)) ≡ true
both a b ha hb = ground arith

deref-some : (o : Option ℕ) (a : ℕ) (k : Kernel) → o ≡ some a → deref o k ≡ done a k
deref-some o a k e = ap (λ x. deref x k) e

-- What is left of the call, given what its page part does.
send_ok :
    (envid value srcva perm c e p : ℕ) (k k' : Kernel)
    → k.curenv ≡ some c
    → envid2env envid false k ≡ done (ok (some e)) k
    → (k.envs e).ipc_recving ≡ true
    → srcva ≢ 0
    → (k.envs e).ipc_dstva ≢ 0
    → send_page c e srcva perm k ≡ done (ok p) k'
    → sys_ipc_can_send envid value srcva perm k
      ≡ done (ok tt) (update_env e (receive (k'.envs c).id value p) k')
unfolding sys_ipc_can_send
send_ok envid value srcva perm c e p k k' cur found waits src dst page =
    rw (found, waits, deref-some k.curenv c k cur, both srcva ((k.envs e).ipc_dstva) src dst, page)
      refl

send_err :
    (envid value srcva perm c e : ℕ) (x : Error) (k k' : Kernel)
    → k.curenv ≡ some c
    → envid2env envid false k ≡ done (ok (some e)) k
    → (k.envs e).ipc_recving ≡ true
    → srcva ≢ 0
    → (k.envs e).ipc_dstva ≢ 0
    → send_page c e srcva perm k ≡ done (err x) k'
    → sys_ipc_can_send envid value srcva perm k ≡ done (err x) k'
unfolding sys_ipc_can_send
send_err envid value srcva perm c e x k k' cur found waits src dst page =
    rw (found, waits, deref-some k.curenv c k cur, both srcva ((k.envs e).ipc_dstva) src dst, page)
      refl

-- A send to a waiting environment that names a page at or above UTOP, or asks for permissions without
-- PTE_U and PTE_P or with others than PTE_W and PTE_AVAIL, fails with E_INVAL and changes nothing:
-- the target still waits.
pub sys_ipc_can_send_refused :
    (envid value srcva perm c e : ℕ) (k : Kernel)
    → k.curenv ≡ some c
    → envid2env envid false k ≡ done (ok (some e)) k
    → (k.envs e).ipc_recving ≡ true
    → srcva ≢ 0
    → (k.envs e).ipc_dstva ≢ 0
    → (leb utop srcva || bad_perm perm) ≡ true
    → sys_ipc_can_send envid value srcva perm k ≡ done (err inval) k
unfolding send_page
sys_ipc_can_send_refused envid value srcva perm c e k cur found waits src dst bad =
    send_err envid value srcva perm c e inval k k cur found waits src dst
      (elim (Bool-cases (leb utop srcva)) [
        | inl h ↦ rw h refl
        | inr h ↦ rw (h, or_false h bad) refl
      ])
  where
    or_false : {a b : Bool} → a ≡ false → (a || b) ≡ true → b ≡ true
    or_false ha hab = ground arith

send_page_value :
    (srcva perm c e ps pd : ℕ) (k : Kernel)
    → srcva < utop
    → (k.envs e).ipc_dstva < utop
    → bad_perm perm ≡ false
    → perm < 4096
    → (k.envs c).pgdir ≡ some ps
    → (k.envs e).pgdir ≡ some pd
    → Space ps k
    → Space pd k
    → HasTable ps k.mem (pdx srcva)
    → HasTable pd k.mem (pdx (k.envs e).ipc_dstva)
    → IsMappable pd k (frame (entry ps k.mem srcva))
    → send_page c e srcva perm k
      ≡ done (ok perm) (inserted pd k (frame (entry ps k.mem srcva)) (k.envs e).ipc_dstva perm)
unfolding send_page
send_page_value srcva perm c e ps pd k low low' good flags es ed ss sd hs hd mp =
    let below : leb utop srcva ≡ false = ground arith in
    rw
      (
        below,
        good,
        deref-some (k.envs c).pgdir ps k es,
        lookup_run ps srcva k ss low hs mp.inside,
        deref-some (k.envs e).pgdir pd k ed,
        page_insert-inserted pd k (frame (entry ps k.mem srcva)) (k.envs e).ipc_dstva perm sd low'
            flags hd mp,
      )
      refl

-- Whatever page the sender's entry names, present or not, is mapped.
entry_sent :
    (envid value srcva perm c e ps pd va : ℕ) (k : Kernel)
    → k.curenv ≡ some c
    → envid2env envid false k ≡ done (ok (some e)) k
    → (k.envs e).ipc_recving ≡ true
    → srcva ≢ 0
    → (k.envs e).ipc_dstva ≢ 0
    → srcva < utop
    → (k.envs e).ipc_dstva < utop
    → va < utop
    → bad_perm perm ≡ false
    → perm < 4096
    → (k.envs c).pgdir ≡ some ps
    → (k.envs e).pgdir ≡ some pd
    → Space ps k
    → Space pd k
    → HasTable ps k.mem (pdx srcva)
    → HasTable pd k.mem (pdx (k.envs e).ipc_dstva)
    → IsMappable pd k (frame (entry ps k.mem srcva))
    → (k' : Kernel) × (sys_ipc_can_send envid value srcva perm k ≡ done (ok tt) k')
      × (entry pd k'.mem va ≡ (
          if ppn (k.envs e).ipc_dstva == ppn va
          then frame (entry ps k.mem srcva) * 4096 + perm / 2 * 2 + 1
          else entry pd k.mem va))
      × ((k'.envs e).ipc_value ≡ value)
      × ((k'.envs e).ipc_from ≡ (k.envs c).id)
      × ((k'.envs e).ipc_perm ≡ perm)
      × ((k'.envs e).ipc_recving ≡ false)
      × ((k'.envs e).status ≡ runnable)
entry_sent envid value srcva perm c e ps pd va k cur found waits src dst low low' low'' good flags
      es ed ss sd hs hd mp =
    let pp = frame (entry ps k.mem srcva) in
    let k1 : Kernel = inserted pd k pp (k.envs e).ipc_dstva perm in
    let page = send_page_value srcva perm c e ps pd k low low' good flags es ed ss sd hs hd mp in
    (
      update_env e (receive (k1.envs c).id value perm) k1,
      send_ok envid value srcva perm c e perm k k1 cur found waits src dst page,
      inserted-entry pd k pp (k.envs e).ipc_dstva perm sd low' flags hd mp va low''
          ∙ rw (mk_pte_lem pp perm (omega (arith, mp.inside, mp.small)) flags) refl,
      ground arith,
      ground (
        arith,
        ap (λ f. (f c).id) (inserted-envs pd k pp (k.envs e).ipc_dstva perm sd low' flags hd mp),
      ),
      ground arith,
      ground arith,
      ground arith,
    )

-- A send with a page to an environment that waits for one: where the sender has a page mapped at the
-- address, this page is mapped where the receiver asked, with the permissions given, and nowhere else in its
-- space. The receiver gets the value, the sender's id and the permissions, stops waiting and is runnable.
pub sys_ipc_can_send_page :
    (envid value srcva perm c e ps pd va : ℕ) (k : Kernel)
    → k.curenv ≡ some c
    → envid2env envid false k ≡ done (ok (some e)) k
    → (k.envs e).ipc_recving ≡ true
    → srcva ≢ 0
    → (k.envs e).ipc_dstva ≢ 0
    → srcva < utop
    → (k.envs e).ipc_dstva < utop
    → va < utop
    → bad_perm perm ≡ false
    → perm < 4096
    → (k.envs c).pgdir ≡ some ps
    → (k.envs e).pgdir ≡ some pd
    → Space ps k
    → Space pd k
    → HasTable ps k.mem (pdx srcva)
    → HasTable pd k.mem (pdx (k.envs e).ipc_dstva)
    → present (entry ps k.mem srcva) ≡ true
    → IsMappable pd k (frame (entry ps k.mem srcva))
    → (k' : Kernel) × (sys_ipc_can_send envid value srcva perm k ≡ done (ok tt) k')
      × (entry pd k'.mem va ≡ (
          if ppn (k.envs e).ipc_dstva == ppn va
          then frame (entry ps k.mem srcva) * 4096 + perm / 2 * 2 + 1
          else entry pd k.mem va))
      × ((k'.envs e).ipc_value ≡ value)
      × ((k'.envs e).ipc_from ≡ (k.envs c).id)
      × ((k'.envs e).ipc_perm ≡ perm)
      × ((k'.envs e).ipc_recving ≡ false)
      × ((k'.envs e).status ≡ runnable)
sys_ipc_can_send_page envid value srcva perm c e ps pd va k cur found waits src dst low low' low''
      good flags es ed ss sd hs hd here mp =
    entry_sent envid value srcva perm c e ps pd va k cur found waits src dst low low' low'' good
      flags es ed ss sd hs hd mp

-- A send from an address where the sender has nothing mapped, but has a page table, succeeds as well: physical
-- page 0 is mapped where the receiver asked, with the permissions given, and nowhere else in its
-- space. The receiver gets the value, the sender's id and the permissions, stops waiting and is runnable.
pub sys_ipc_can_send_unmapped :
    (envid value srcva perm c e ps pd va : ℕ) (k : Kernel)
    → k.curenv ≡ some c
    → envid2env envid false k ≡ done (ok (some e)) k
    → (k.envs e).ipc_recving ≡ true
    → srcva ≢ 0
    → (k.envs e).ipc_dstva ≢ 0
    → srcva < utop
    → (k.envs e).ipc_dstva < utop
    → va < utop
    → bad_perm perm ≡ false
    → perm < 4096
    → (k.envs c).pgdir ≡ some ps
    → (k.envs e).pgdir ≡ some pd
    → Space ps k
    → Space pd k
    → HasTable ps k.mem (pdx srcva)
    → HasTable pd k.mem (pdx (k.envs e).ipc_dstva)
    → entry ps k.mem srcva ≡ 0
    → IsMappable pd k 0
    → (k' : Kernel) × (sys_ipc_can_send envid value srcva perm k ≡ done (ok tt) k')
      × (entry pd k'.mem va
          ≡ (if ppn (k.envs e).ipc_dstva == ppn va then perm / 2 * 2 + 1 else entry pd k.mem va))
      × ((k'.envs e).ipc_value ≡ value)
      × ((k'.envs e).ipc_from ≡ (k.envs c).id)
      × ((k'.envs e).ipc_perm ≡ perm)
      × ((k'.envs e).ipc_recving ≡ false)
      × ((k'.envs e).status ≡ runnable)
sys_ipc_can_send_unmapped envid value srcva perm c e ps pd va k cur found waits src dst low low'
      low'' good flags es ed ss sd hs hd absent mp =
    let z : frame (entry ps k.mem srcva) ≡ 0 = omega (arith, absent) in
    let m : IsMappable pd k (frame (entry ps k.mem srcva)) = subst (IsMappable pd k) (sym z) mp in
    let (k', run, map, value, from, flags', stopped, status) =
      entry_sent envid value srcva perm c e ps pd va k cur found waits src dst low low' low'' good
        flags es ed ss sd hs hd m in
    let page : frame (entry ps k.mem srcva) * 4096 + perm / 2 * 2 + 1 ≡ perm / 2 * 2 + 1 =
      omega (arith, z) in
    let shown =
      ap (λ w. if ppn (k.envs e).ipc_dstva == ppn va then w else entry pd k.mem va) page in
    (k', run, map ∙ shown, value, from, flags', stopped, status)
