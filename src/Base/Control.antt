-- ===== src/Base/Control.antt =====
-- Stateful C code: a function takes the state and either finishes with a value and the new state,
-- or leaves for good by switching to a user environment, or stops in `panic`. An `int` that is
-- negative on failure is a `Ret`.

pub data Run (S A : Type 0) : Type 0 where
  done : A → S → Run S A
  leave : S → Run S A
  panic : Run S A

abbrev pub M : Type 0 → Type 0 → Type 0
M S A = S → Run S A

abbrev pub pure : {S A : Type 0} → A → M S A
pure a s = done a s

-- What follows a run: skipped after a panic. By clauses, so that the call it waits for can be
-- rewritten.
abbrev pub and_then : {S A B : Type 0} → Run S A → (A → M S B) → Run S B
and_then (done a s) f = f a s
and_then (leave s) f = leave s
and_then panic f = panic

infixl 5 ◌>>=◌ ◌>>◌
abbrev pub ◌>>=◌ : {S A B : Type 0} → M S A → (A → M S B) → M S B
◌>>=◌ m f s = and_then (m s) f

abbrev pub ◌>>◌ : {S B : Type 0} → M S (Unit {0}) → M S B → M S B
◌>>◌ m k s = and_then (m s) (λ _. k)

abbrev pub get : {S : Type 0} → M S S
get s = done s s

abbrev pub modify : {S : Type 0} → (S → S) → M S (Unit {0})
modify f s = done tt (f s)

-- inc/error.h
pub data Error : Type 0 where
  unspecified bad_env inval no_mem no_free_env ipc_not_recv : Error
  no_disk max_open not_found bad_path file_exists not_exec : Error

-- The value of a call that returns an `int` below 0 on failure.
pub data Ret (A : Type 0) : Type 0 where
  ok : A → Ret A
  err : Error → Ret A

-- `if ((r = m) < 0) return r;` then `f`.
abbrev pub on_ok : {S A B : Type 0} → (A → M S (Ret B)) → Ret A → M S (Ret B)
on_ok f (ok a) s = f a s
on_ok f (err e) s = done (err e) s

abbrev pub try : {S A B : Type 0} → M S (Ret A) → (A → M S (Ret B)) → M S (Ret B)
try m f s = and_then (m s) (on_ok f)
