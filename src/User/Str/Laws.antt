-- ===== src/User/Str/Laws.antt =====
-- The string functions of user/string.c on strings that end in a NUL.
use demo2s.Base.{
  ℕ, zero, suc, ◌+◌, ◌≤◌, ◌<◌, ◌≡◌, ◌≢◌, ◌⊎◌, inl, refl, sym, ◌∙◌, some, List, [], ◌∷◌, ltb, ◌==◌,
  if◌then◌else◌, update, update_self, update_other, length, arith,
}
use demo2s.User.Str.{Bytes, strlen_from, strlen, strcpy, bcopy, strcmp, Order, below, same, above}

-- The bytes from s on are those of cs, none of them 0, and a 0.
unfoldable pub HasString : Bytes → ℕ → List ℕ → Type 0
HasString m s [] = m s ≡ 0
HasString m s (c ∷ cs) = (m s ≡ c) × (c ≢ 0) × HasString m (s + 1) cs

strlen_run :
    (cs : List ℕ) (room n s : ℕ) (m : Bytes)
    → HasString m s cs
    → length cs < room
    → strlen_from room m s n ≡ some (n + length cs)
unfolding strlen_from HasString
strlen_run [] zero n s m h lt = absurd (omega (arith, lt))
strlen_run (c ∷ cs) zero n s m h lt = absurd (omega (arith, lt))
strlen_run [] (suc room) n s m h lt = ground (arith, h)
strlen_run (c ∷ cs) (suc room) n s m (e, ne, h) lt =
    let rest = strlen_run cs room (n + 1) (s + 1) m h (omega (arith, lt)) in
    let step : strlen_from (suc room) m s n ≡ strlen_from room m (s + 1) (n + 1) =
      ground (arith, e, ne) in
    step ∙ rest ∙ ground arith

pub strlen_lem :
    (cs : List ℕ) (room s : ℕ) (m : Bytes)
    → HasString m s cs
    → length cs < room
    → strlen room m s ≡ some (length cs)
unfolding strlen
strlen_lem cs room s m h lt = strlen_run cs room 0 s m h lt ∙ ground arith

-- `bcopy` copies forward.
pub bcopy_kept :
    (n src dst i : ℕ) (m : Bytes) → (i < dst) ⊎ (dst + n ≤ i) → bcopy n m src dst i ≡ m i
unfolding bcopy
bcopy_kept zero src dst i m out = refl
bcopy_kept (suc n) src dst i m out =
    bcopy_kept n (src + 1) (dst + 1) i (update m dst (m src)) (omega (arith, out))
    ∙ update_other m dst i (m src) (omega (arith, out))

pub bcopy_lem :
    (n src dst i : ℕ) (m : Bytes)
    → (dst ≤ src) ⊎ (src + n ≤ dst)
    → i < n
    → bcopy n m src dst (dst + i) ≡ m (src + i)
unfolding bcopy
bcopy_lem zero src dst i m apart lt = absurd (omega (arith, lt))
bcopy_lem (suc n) src dst zero m apart lt =
    let d : dst + 0 ≡ dst = omega arith in
    let s : src + 0 ≡ src = omega arith in
    rw (d, s)
      (bcopy_kept n (src + 1) (dst + 1) dst (update m dst (m src)) (inl (omega arith))
        ∙ update_self m dst (m src))
bcopy_lem (suc n) src dst (suc i) m apart lt =
    let d : dst + suc i ≡ dst + 1 + i = omega arith in
    let s : src + suc i ≡ src + 1 + i = omega arith in
    rw (d, s)
      (bcopy_lem n (src + 1) (dst + 1) i (update m dst (m src)) (omega (arith, apart))
          (omega (arith, lt))
        ∙ update_other m dst (src + 1 + i) (m src) (λ h. omega (arith, h, apart, lt)))

HasString-update :
    (cs : List ℕ) (m : Bytes) (s i v : ℕ)
    → HasString m s cs
    → (i < s) ⊎ (s + length cs < i)
    → HasString (update m i v) s cs
unfolding HasString
HasString-update [] m s i v h out = update_other m i s v (λ e. omega (arith, e, out)) ∙ h
HasString-update (c ∷ cs) m s i v (e, ne, h) out = (
  update_other m i s v (λ e. omega (arith, e, out)) ∙ e,
  ne,
  HasString-update cs m (s + 1) i v h (omega (arith, out)),
)

strcpy_end :
    (room dst src : ℕ) (m : Bytes)
    → m src ≡ 0
    → strcpy (suc room) m dst src ≡ some (update m dst (m src))
unfolding strcpy
strcpy_end room dst src m e = ground (arith, e)

strcpy_on :
    (room dst src : ℕ) (m : Bytes)
    → m src ≢ 0
    → strcpy (suc room) m dst src ≡ strcpy room (update m dst (m src)) (dst + 1) (src + 1)
unfolding strcpy
strcpy_on room dst src m ne = ground (arith, ne)

-- `strcpy` to a place that the string does not overlap ends, leaves the string there, and changes no
-- other byte.
pub strcpy_lem :
    (cs : List ℕ) (room dst src : ℕ) (m : Bytes)
    → HasString m src cs
    → (dst + length cs < src) ⊎ (src + length cs < dst)
    → length cs < room
    → (m' : Bytes) × (strcpy room m dst src ≡ some m')
      × HasString m' dst cs
      × ((i : ℕ) → (i < dst) ⊎ (dst + length cs < i) → m' i ≡ m i)
unfolding HasString
strcpy_lem cs zero dst src m h apart lt = absurd (omega (arith, lt))
strcpy_lem [] (suc room) dst src m h apart lt = (
  update m dst (m src),
  strcpy_end room dst src m h,
  update_self m dst (m src) ∙ h,
  λ i out. update_other m dst i (m src) (λ e. omega (arith, e, out)),
)
strcpy_lem (c ∷ cs) (suc room) dst src m (e, ne, h) apart lt =
    let m1 = update m dst (m src) in
    let (m', run, there, kept) =
      strcpy_lem cs room (dst + 1) (src + 1) m1
        (HasString-update cs m (src + 1) dst (m src) h (omega (arith, apart)))
        (omega (arith, apart)) (omega (arith, lt)) in
    (
      m',
      strcpy_on room dst src m (λ z. ne (sym e ∙ z)) ∙ run,
      (kept dst (inl (omega arith)) ∙ update_self m dst (m src) ∙ e, ne, there),
      λ i out.
          kept i (omega (arith, out)) ∙ update_other m dst i (m src) (λ z. omega (arith, z, out)),
    )

-- The order of two strings by their first difference, where the end comes before every character.
abbrev pub lexical : List ℕ → List ℕ → Order
lexical [] [] = same
lexical [] (d ∷ ds) = below
lexical (c ∷ cs) [] = above
lexical (c ∷ cs) (d ∷ ds) = if c == d then lexical cs ds else if ltb c d then below else above

-- `strcmp` ends and orders two strings by their first difference.
pub strcmp_lem :
    (cs ds : List ℕ) (room p q : ℕ) (m : Bytes)
    → HasString m p cs
    → HasString m q ds
    → length cs < room
    → strcmp room m p q ≡ some (lexical cs ds)
unfolding HasString strcmp
strcmp_lem cs ds zero p q m h g lt = absurd (omega (arith, lt))
strcmp_lem [] [] (suc room) p q m h g lt = ground (arith, h, g)
strcmp_lem [] (d ∷ ds) (suc room) p q m h (e, ne, g) lt = ground (arith, h, e, ne)
strcmp_lem (c ∷ cs) [] (suc room) p q m (e, ne, h) g lt = ground (arith, g, e, ne)
strcmp_lem (c ∷ cs) (d ∷ ds) (suc room) p q m (e, ne, h) (f, nf, g) lt =
    let rest = strcmp_lem cs ds room (p + 1) (q + 1) m h g (omega (arith, lt)) in
    ground (arith, e, ne, f, nf, rest)
