-- ===== src/User/Str.antt =====
-- user/string.c on memory as a function from addresses to bytes. A loop that waits for a NUL takes a
-- number of bytes that it may look at, and has no result when there is none among them. The
-- comparison of `char` as `u_int` is that of the bytes, since the sign is extended on both sides.
pub mod Laws
use demo2s.Base.{
  ℕ, zero, suc, ◌+◌, Bool, true, false, not, ◌&&◌, Option, none, some, List, [], ◌∷◌, ltb, ◌==◌,
  if◌then◌else◌, update,
}

abbrev pub Bytes : Type 0
Bytes = ℕ → ℕ

-- `n` bytes were counted so far.
unfoldable pub strlen_from : ℕ → Bytes → ℕ → ℕ → Option ℕ
strlen_from zero m s n = none
strlen_from (suc room) m s n =
    let rest = strlen_from room m (s + 1) (n + 1) in if m s == 0 then some n else rest

unfoldable pub strlen : ℕ → Bytes → ℕ → Option ℕ
unfolding strlen_from
strlen room m s = strlen_from room m s 0

unfoldable pub strcpy : ℕ → Bytes → ℕ → ℕ → Option Bytes
strcpy zero m dst src = none
strcpy (suc room) m dst src =
    let rest = strcpy room (update m dst (m src)) (dst + 1) (src + 1) in
    if m src == 0 then some (update m dst (m src)) else rest

-- The result is the address, or `none` for the null pointer.
unfoldable pub strchr : ℕ → Bytes → ℕ → ℕ → Option (Option ℕ)
strchr zero m s c = none
strchr (suc room) m s c =
    let rest = strchr room m (s + 1) c in
    if m s == 0 then some none else if m s == c then some (some s) else rest

unfoldable pub bzero : ℕ → Bytes → ℕ → Bytes
bzero zero m v = m
bzero (suc n) m v = bzero n (update m v 0) (v + 1)

unfoldable pub bcopy : ℕ → Bytes → ℕ → ℕ → Bytes
bcopy zero m src dst = m
bcopy (suc n) m src dst = bcopy n (update m dst (m src)) (src + 1) (dst + 1)

-- -1, 0 and 1
pub data Order : Type 0 where
  below same above : Order

unfoldable pub strcmp : ℕ → Bytes → ℕ → ℕ → Option Order
strcmp zero m p q = none
strcmp (suc room) m p q =
    let rest = strcmp room m (p + 1) (q + 1) in
    if not (m p == 0) && m p == m q
    then rest
    else if ltb (m p) (m q)
    then some below
    else if ltb (m q) (m p)
    then some above
    else some same
