-- ===== src/User/Spawn/Load/Failure.antt =====
-- `spawn` of user/spawn.c when calls fail.
use demo2s.Base.{
  ℕ, zero, suc, ◌+◌, ◌-◌, ◌/◌, ◌≡◌, refl, subst, Option, none, some, List, [], ◌∷◌, Bool, true,
  false, not, ◌==◌, done, leave, panic, Run, M, and_then, Error, Ret, ok, err, try, on_ok,
  if◌then◌else◌, inval,
}
use demo2s.Kern.Mmu.{by2pg, utext}
use demo2s.User.Spawn.Load.{
  Aout, Load, map_tmp, unmap_tmp, or_unmap, stack_at, initial_stack, call_init_stack, text_of,
  data_of, zeros, inherited, call, answered, map_text, copy_data, clear_bss, share_library,
  start_child, load_child, spawn, map_child, read_page, text_end, data_end, bss_end,
}

-- The call returns, and leaves the child's status.
abbrev Leaves : Bool → Run Load (Ret (Unit {0})) → Type 0
Leaves b (done r s) = s.runnable ≡ b
Leaves b (leave s) = ⊥
Leaves b panic = ⊥

-- The call returns, and leaves the child's status if it fails.
abbrev pub Spares : Bool → Run Load (Ret (Unit {0})) → Type 0
Spares b (done (ok u) s) = Unit {0}
Spares b (done (err e) s) = s.runnable ≡ b
Spares b (leave s) = ⊥
Spares b panic = ⊥

IsQuiet : M Load (Ret (Unit {0})) → Type 0
IsQuiet m = (s : Load) → Leaves s.runnable (m s)

call-IsQuiet :
    (fails : ℕ → Option Error) (effect : Load → Load)
    → ((s : Load) → (effect s).runnable ≡ s.runnable)
    → IsQuiet (call fails effect)
unfolding IsQuiet
call-IsQuiet fails effect keeps s = by_answer (fails s.calls)
  where
    by_answer : (o : Option Error) → Leaves s.runnable (answered effect s o)
    by_answer none = keeps (record s { calls = s.calls + 1 })
    by_answer (some e) = refl

-- What follows a call that is quiet
after :
    (b : Bool) (r : Run Load (Ret (Unit {0}))) (f : Unit {0} → M Load (Ret (Unit {0})))
    → Leaves b r
    → ((u : Unit {0}) → IsQuiet (f u))
    → Leaves b (and_then r (on_ok f))
unfolding IsQuiet
after b (done (ok u) s) f h q = subst (λ x. Leaves x (f u s)) h (q u s)
after b (done (err e) s) f h q = h
after b (leave s) f h q = absurd h
after b panic f h q = absurd h

try-IsQuiet :
    (m : M Load (Ret (Unit {0}))) (f : Unit {0} → M Load (Ret (Unit {0})))
    → IsQuiet m
    → ((u : Unit {0}) → IsQuiet (f u))
    → IsQuiet (try m f)
unfolding IsQuiet
try-IsQuiet m f h q s = after s.runnable (m s) f (h s) q

after_spared :
    (b : Bool) (r : Run Load (Ret (Unit {0}))) (f : Unit {0} → M Load (Ret (Unit {0})))
    → Leaves b r
    → ((u : Unit {0}) (s : Load) → Spares s.runnable (f u s))
    → Spares b (and_then r (on_ok f))
after_spared b (done (ok u) s) f h q = subst (λ x. Spares x (f u s)) h (q u s)
after_spared b (done (err e) s) f h q = h
after_spared b (leave s) f h q = absurd h
after_spared b panic f h q = absurd h

try-Spares :
    (m : M Load (Ret (Unit {0}))) (f : Unit {0} → M Load (Ret (Unit {0})))
    → IsQuiet m
    → ((u : Unit {0}) (s : Load) → Spares s.runnable (f u s))
    → (s : Load) → Spares s.runnable (try m f s)
unfolding IsQuiet
try-Spares m f h q s = after_spared s.runnable (m s) f (h s) q

module _ (fails : ℕ → Option Error) where
  text-IsQuiet : (n va offset : ℕ) → IsQuiet (map_text fails n va offset)
  unfolding map_text IsQuiet
  text-IsQuiet zero va offset s = refl
  text-IsQuiet (suc n) va offset s =
      try-IsQuiet (call fails (λ s. s)) _ (call-IsQuiet fails (λ s. s) (λ s. refl))
        (λ u.
          try-IsQuiet (call fails (map_child va (text_of offset))) _
            (call-IsQuiet fails (map_child va (text_of offset)) (λ s. refl))
            (λ u. text-IsQuiet n (va + by2pg) (offset + by2pg)))
        s

  error-IsQuiet :
      (b : Bool) (r : Run Load (Ret (Unit {0}))) → Leaves b r → Leaves b (or_unmap fails r)
  unfolding IsQuiet
  error-IsQuiet b (done (ok u) s) h = h
  error-IsQuiet b (done (err e) s) h = dropped (call fails unmap_tmp s) (
      subst (λ x. Leaves x (call fails unmap_tmp s)) h (call-IsQuiet fails unmap_tmp (λ s. refl) s))
    where
      dropped :
          (r : Run Load (Ret (Unit {0})))
          → Leaves b r
          → Leaves b (and_then r (λ _ s. done (err e) s))
      dropped (done a s) h = h
      dropped (leave s) h = absurd h
      dropped panic h = absurd h
  error-IsQuiet b (leave s) h = absurd h
  error-IsQuiet b panic h = absurd h

  stack-IsQuiet : (fits : Bool) → IsQuiet (call_init_stack fails fits)
  unfolding call_init_stack IsQuiet
  stack-IsQuiet false s = refl
  stack-IsQuiet true s =
      try-IsQuiet (call fails map_tmp) _ (call-IsQuiet fails map_tmp (λ s. refl))
        (λ u s. error-IsQuiet s.runnable _ (
          try-IsQuiet (call fails (map_child stack_at initial_stack)) _
            (call-IsQuiet fails (map_child stack_at initial_stack) (λ s. refl))
            (λ u. call-IsQuiet fails unmap_tmp (λ s. refl)) s))
        s

  data-IsQuiet : (size n va : ℕ) → IsQuiet (copy_data fails size n va)
  unfolding copy_data IsQuiet
  data-IsQuiet size zero va s = refl
  data-IsQuiet size (suc n) va s =
      try-IsQuiet (call fails map_tmp) _ (call-IsQuiet fails map_tmp (λ s. refl))
        (λ u.
          try-IsQuiet (call fails (read_page size)) _
            (call-IsQuiet fails (read_page size) (λ s. refl))
            (λ u.
              try-IsQuiet (call fails (map_child va (data_of s.offset))) _
                (call-IsQuiet fails (map_child va (data_of s.offset)) (λ s. refl))
                (λ u. data-IsQuiet size n (va + by2pg))))
        s

  bss-IsQuiet : (n va : ℕ) → IsQuiet (clear_bss fails n va)
  unfolding clear_bss IsQuiet
  bss-IsQuiet zero va s = refl
  bss-IsQuiet (suc n) va s =
      try-IsQuiet (call fails (map_child va zeros)) _
        (call-IsQuiet fails (map_child va zeros) (λ s. refl)) (λ u. bss-IsQuiet n (va + by2pg)) s

  -- The results of these calls are not looked at.
  library-IsQuiet : (libs : List ℕ) → IsQuiet (share_library fails libs)
  unfolding share_library IsQuiet
  library-IsQuiet [] s = refl
  library-IsQuiet (va ∷ libs) s =
      onward s.runnable (call fails (map_child va inherited) s)
        (call-IsQuiet fails (map_child va inherited) (λ s. refl) s) (library-IsQuiet libs)
    where
      onward :
          (b : Bool) (r : Run Load (Ret (Unit {0})))
          → Leaves b r
          → IsQuiet (share_library fails libs)
          → Leaves b (and_then r (λ _. share_library fails libs))
      onward b (done r s) h q = subst (λ x. Leaves x (share_library fails libs s)) h (q s)
      onward b (leave s) h q = absurd h
      onward b panic h q = absurd h

  child-IsQuiet : (h : Aout) (size : ℕ) → IsQuiet (load_child fails h size)
  unfolding load_child
  child-IsQuiet h size =
      try-IsQuiet (map_text fails ((text_end h - utext) / by2pg) utext 0) _
        (text-IsQuiet ((text_end h - utext) / by2pg) utext 0)
        (λ u.
          try-IsQuiet (call fails (λ s. record s { offset = h.a_text })) _
            (call-IsQuiet fails (λ s. record s { offset = h.a_text }) (λ s. refl))
            (λ u.
              try-IsQuiet (copy_data fails size ((data_end h - text_end h) / by2pg) (text_end h)) _
                (data-IsQuiet size ((data_end h - text_end h) / by2pg) (text_end h))
                (λ u.
                  try-IsQuiet (clear_bss fails ((bss_end h - data_end h) / by2pg) (data_end h)) _
                    (bss-IsQuiet ((bss_end h - data_end h) / by2pg) (data_end h))
                    (λ u. call-IsQuiet fails (λ s. record s { closed = true }) (λ s. refl)))))

  last_spared : (s : Load) → Spares s.runnable (call fails (λ s. record s { runnable = true }) s)
  last_spared s = by_answer (fails s.calls)
    where
      by_answer :
          (o : Option Error) → Spares s.runnable (answered (λ s. record s { runnable = true }) s o)
      by_answer none = tt
      by_answer (some e) = refl

  start-Spares : (libs : List ℕ) (s : Load) → Spares s.runnable (start_child fails libs s)
  unfolding start_child
  start-Spares libs s =
      try-Spares (call fails (λ s. record s { has_frame = true })) _
        (call-IsQuiet fails (λ s. record s { has_frame = true }) (λ s. refl))
        (λ u s.
          try-Spares (share_library fails libs) _ (library-IsQuiet libs) (λ u s. last_spared s) s)
        s

-- `spawn` returns whichever of its calls fail, and if it returns an error, the child's status is as it was:
-- a child that is loaded in part does not run.
pub spawn-Spares :
    (fails : ℕ → Option Error) (fits : Bool) (h : Aout) (size : ℕ) (libs : List ℕ) (s : Load)
    → Spares s.runnable (spawn fails fits h size libs s)
unfolding spawn
spawn-Spares fails fits h size libs s =
    try-Spares (call fails (λ s. s)) _ (call-IsQuiet fails (λ s. s) (λ s. refl))
      (λ u s.
        try-Spares (call fails (λ s. s)) _ (call-IsQuiet fails (λ s. s) (λ s. refl))
          (λ u s. guarded (not (h.a_entry == utext + 0x20)) s) s)
      s
  where
    guarded :
        (b : Bool) (s : Load)
        → Spares s.runnable (
            if b
            then done (err inval) s
            else try
                (call fails (λ s. record s { has_child = true }))
                (λ _.
                  try
                    (call_init_stack fails fits)
                    (λ _. try (load_child fails h size) (λ _. start_child fails libs)))
                s)
    guarded true s = refl
    guarded false s =
        try-Spares (call fails (λ s. record s { has_child = true })) _
          (call-IsQuiet fails (λ s. record s { has_child = true }) (λ s. refl))
          (λ u s.
            try-Spares (call_init_stack fails fits) _ (stack-IsQuiet fails fits)
              (λ u s.
                try-Spares (load_child fails h size) _ (child-IsQuiet fails h size)
                  (λ u s. start-Spares fails libs s) s)
              s)
          s
