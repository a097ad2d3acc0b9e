-- ===== src/Kern/Console.antt =====
-- kern/console.c: the input ring between the interrupt handlers and `cons_getc`, the keyboard
-- decoder, and the text screen.
pub mod Keyboard
pub mod Modifiers
pub mod Ring
pub mod Screen
use demo2s.Base.{
  ℕ, ◌+◌, ◌<◌, Bool, List, [], ◌∷◌, M, done, pure, ◌>>=◌, ◌>>◌, get, modify, update, ◌==◌,
  if◌then◌else◌, Option, none, some, u8,
}
use demo2s.Kern.State.{Kernel, Cons, deref}
use demo2s.Kern.Sched.{env_destroy}

abbrev pub by2cons : ℕ
by2cons = 512

-- Storing one character: `cons.buf[cons.wpos++] = c` and the wrap. The buffer holds `u_char`.
unfoldable pub push : ℕ → Cons → Cons
push c s =
    let w = s.wpos + 1 in
    record s { buf = update s.buf s.wpos (u8 c); wpos = (if w == by2cons then 0 else w) }

-- `cons_getc`; 0 on an empty ring.
unfoldable pub cons_getc : M Kernel ℕ
cons_getc k =
    let s = k.cons in
    let r = s.rpos + 1 in
    if s.rpos == s.wpos
    then done 0 k
    else done (s.buf s.rpos)
        (record k { cons = record s { rpos = (if r == by2cons then 0 else r) } })

-- `cons_intr` on what `proc` returns until its -1. The echo of a character by `cons_putc` is left to
-- the screen; a Ctrl-C (3) destroys the current environment, which may not come back here.
unfoldable pub cons_intr : List ℕ → M Kernel (Unit {0})
unfolding push
cons_intr [] k = done tt k
cons_intr (c ∷ cs) k =
    let skip = cons_intr cs k in
    let rest =
      ((do
        (if c == 3 then (do k ← get; e ← deref k.curenv; env_destroy e) else pure tt)
        modify (λ k. record k { cons = push c k.cons })
        cons_intr cs)
        k) in
    if c == 0 then skip else rest
