-- ===== src/User/Shell/Words.antt =====
-- Words in the lexer of user/sh.c.
use demo2s.Base.{
  if_false, if_true, equal_or_later, ℕ, zero, suc, ◌+◌, ◌≤◌, ◌<◌, ◌≡◌, ◌⊎◌, inl, inr, refl, sym,
  ◌∙◌, true, false, Option, none, some, ◌==◌, update, update_self, update_other, arith, Bool-cases,
}
use demo2s.User.Str.{Bytes}
use demo2s.User.Shell.{
  is_white, is_symbol, ends_word, skip_white, word_end, token_at, symbol_token, word_token,
  get_token, Token, no_token,
}

word_end_lem :
    (room s e : ℕ) (m : Bytes)
    → word_end room m s ≡ some e
    → (s ≤ e) × (ends_word (m e) ≡ true) × ((j : ℕ) → s ≤ j → j < e → ends_word (m j) ≡ false)
unfolding word_end
word_end_lem zero s e m h = absurd (ground (arith, h))
word_end_lem (suc room) s e m h = elim (Bool-cases (ends_word (m s))) [
  | inl y ↦
      (let here : word_end (suc room) m s ≡ some s = rw (word_end, y) refl in
        let both : some s ≡ some e = sym here ∙ h in
        let eq : s ≡ e = cc in
        (omega (arith, eq), rw⁻¹ eq y, λ j lo hi. absurd (omega (arith, eq, lo, hi))))
  | inr n ↦
      (let on : word_end (suc room) m s ≡ word_end room m (s + 1) = rw (word_end, n) refl in
        let (le, ends, inside) = word_end_lem room (s + 1) e m (sym on ∙ h) in
        (
          omega (arith, le),
          ends,
          λ j lo hi. elim (equal_or_later j s lo) [ inl eq ↦ rw eq n | inr lt ↦ inside j lt hi ],
        ))
]

byte_at : {f g : Bytes} (i : ℕ) → f ≡ g → f i ≡ g i
byte_at i e = rw e

skip_white_lem :
    (room s s' : ℕ) (m m' : Bytes)
    → skip_white room m s ≡ some (s', m')
    → (s ≤ s')
      × ((i : ℕ) → i < s → m' i ≡ m i)
      × ((i : ℕ) → s' ≤ i → m' i ≡ m i)
      × (is_white (m s) ≡ true → (s < s') × (m' s ≡ 0))
      × (is_white (m s) ≡ false → s' ≡ s)
      × (is_white (m' s') ≡ false)
unfolding skip_white
skip_white_lem zero s s' m m' h = absurd (ground (arith, h))
skip_white_lem (suc room) s s' m m' h = elim (Bool-cases (is_white (m s))) [
  | inl y ↦
      (let on : skip_white (suc room) m s ≡ skip_white room (update m s 0) (s + 1) =
          rw (skip_white, y) refl in
        let (le, before, after, w, n, last) =
          skip_white_lem room (s + 1) s' (update m s 0) m' (sym on ∙ h) in
        (
          omega (arith, le),
          (λ i lt. before i (omega (arith, lt)) ∙ update_other m s i 0 (λ e. omega (arith, e, lt))),
          (λ i lt. after i lt ∙ update_other m s i 0 (λ e. omega (arith, e, lt, le))),
          (λ _. (omega (arith, le), before s (omega arith) ∙ update_self m s 0)),
          (λ f. absurd (ground (arith, f, y))),
          last,
        ))
  | inr n ↦
      (let here : skip_white (suc room) m s ≡ some (s, m) = rw (skip_white, n) refl in
        let both : some (s, m) ≡ some (s', m') = sym here ∙ h in
        let eq : s' ≡ s = cc in
        let same : m' ≡ m = cc in
        (
          omega (arith, eq),
          (λ i lt. byte_at i same),
          (λ i lt. byte_at i same),
          (λ f. absurd (ground (arith, f, n))),
          (λ _. eq),
          rw (same, eq) n,
        ))
]

-- The three kinds of token.
data AtToken (room s : ℕ) (m m' : Bytes) (t : Token) : Type 0 where
  at_end : m s ≡ 0 → m' ≡ m → t ≡ no_token → AtToken room s m m' t
  at_symbol : is_symbol (m s) ≡ true → m' ≡ update m s 0 → t.kind ≡ m s → AtToken room s m m' t
  at_word :
      (e : ℕ)
      → word_end room m s ≡ some e
      → (m s == 0) ≡ false
      → is_symbol (m s) ≡ false
      → m' ≡ m
      → t ≡ record { kind = 119; p1 = some s; p2 = some e }
      → AtToken room s m m' t

kind_at : {t u : Token} → t ≡ u → t.kind ≡ u.kind
kind_at e = rw e

-- What a token and memory are, when they are the ones of a pair.
same_token :
    (t u : Token) (m m' : Bytes)
    → ◌≡◌ {A = Option (Token × Bytes)} (some (t, m')) (some (u, m))
    → (t ≡ u) × (m' ≡ m)
same_token t u m m' e = let eq : t ≡ u = cc in let same : m' ≡ m = cc in (eq, same)

p1_at : {t u : Token} → t ≡ u → t.p1 ≡ u.p1
p1_at e = rw e

p2_at : {t u : Token} → t ≡ u → t.p2 ≡ u.p2
p2_at e = rw e

some_inj : (a b : ℕ) → ◌≡◌ {A = Option ℕ} (some a) (some b) → a ≡ b
some_inj a b e = cc

-- A place where a word goes on is not its end.
goes_on : (q x : ℕ) (k : Bytes) → q ≤ x → ends_word (k q) ≡ false → ends_word (k x) ≡ true → q < x
goes_on q x k le n y = elim (order q x le) [
  | inl eq ↦ absurd (omega (arith, differ (k q) (k x) n y (byte_same eq)))
  | inr lt ↦ lt
]
  where
    order : (q x : ℕ) → q ≤ x → (q ≡ x) ⊎ (q < x)
    order q x le = omega (arith, le)

    byte_same : q ≡ x → k q ≡ k x
    byte_same eq = rw eq

    differ : (a b : ℕ) → ends_word a ≡ false → ends_word b ≡ true → a ≡ b → zero ≡ suc zero
    differ a b n y e = ground (arith, n, y, e)

word_found :
    (room s : ℕ) (m m' : Bytes) (t : Token) (o : Option ℕ)
    → (m s == 0) ≡ false
    → is_symbol (m s) ≡ false
    → word_end room m s ≡ o
    → ◌≡◌ {A = Option (Token × Bytes)} (some (t, m')) (word_token m s o)
    → AtToken room s m m' t
word_found room s m m' t none nz n e h = absurd (ground (arith, h))
word_found room s m m' t (some x) nz n e h =
    let (eq, same) = same_token t (record { kind = 119; p1 = some s; p2 = some x }) m m' h in
    at_word x e nz n same eq

at_token :
    (room s : ℕ) (m m' : Bytes) (t : Token)
    → token_at room m s ≡ some (t, m')
    → AtToken room s m m' t
unfolding token_at
at_token room s m m' t h = elim (Bool-cases (m s == 0)) [
  | inl z ↦
      (let (eq, same) =
          same_token t no_token m m' (sym h ∙ if_true (m s == 0) (some (no_token, m)) _ z) in
        at_end (ground (arith, z)) same eq)
  | inr nz ↦
      (let inner = sym h ∙ if_false (m s == 0) (some (no_token, m)) _ nz in
        elim (Bool-cases (is_symbol (m s))) [
          | inl y ↦
              (let (eq, same) =
                  same_token t ((symbol_token m s).0) (update m s 0) m'
                    (inner ∙ if_true (is_symbol (m s)) (some (symbol_token m s)) _ y) in
                at_symbol y same (kind_at eq))
          | inr n ↦
              word_found room s m m' t (word_end room m s) nz n refl
                (inner ∙ if_false (is_symbol (m s)) (some (symbol_token m s)) _ n)
        ])
]

-- A token that is read from s on changes no byte before s.
token_kept : (room s i : ℕ) (m m' : Bytes) (t : Token) → AtToken room s m m' t → i < s → m' i ≡ m i
token_kept room s i m m' t (at_end z same e) lt = byte_at i same
token_kept room s i m m' t (at_symbol y same e) lt =
    byte_at i same ∙ update_other m s i 0 (λ h. omega (arith, h, lt))
token_kept room s i m m' t (at_word x e nz n same eq) lt = byte_at i same

-- A token that is read from the end of a word, where there is no white space, leaves a 0 there.
token_ends :
    (room s : ℕ) (m m' : Bytes) (t : Token)
    → AtToken room s m m' t
    → ends_word (m s) ≡ true
    → is_white (m s) ≡ false
    → m' s ≡ 0
token_ends room s m m' t (at_end z same e) ends w = byte_at s same ∙ z
token_ends room s m m' t (at_symbol y same e) ends w = byte_at s same ∙ update_self m s 0
token_ends room s m m' t (at_word x e nz n same eq) ends w = absurd (ground (arith, nz, n, w, ends))

-- A call of `_gettoken` that gives a token: where the token starts, and memory before it was read.
record IsRead (room s : ℕ) (m m' : Bytes) (t : Token) : Type 0 where
  at : ℕ
  skipped : Bytes
  skip : skip_white room m s ≡ some (at, skipped)
  token : AtToken room at skipped m' t

get_token-IsRead :
    (room s : ℕ) (m m' : Bytes) (t : Token) (o : Option (ℕ × Bytes))
    → skip_white room m s ≡ o
    → get_token room m (some s) ≡ some (t, m')
    → IsRead room s m m' t
unfolding get_token
get_token-IsRead room s m m' t none e h = absurd (ground (arith, e, h))
get_token-IsRead room s m m' t (some (s', m1)) e h =
    let go : get_token room m (some s) ≡ token_at room m1 s' = rw (get_token, e) refl in
    let token : token_at room m1 s' ≡ some (t, m') = sym go ∙ h in
    record { at = s'; skipped = m1; skip = e; token = at_token room s' m1 m' t token }

starts_word :
    (c : ℕ) → (c == 0) ≡ false → is_symbol c ≡ false → is_white c ≡ false → ends_word c ≡ false
starts_word c nz n w = ground (arith, nz, n, w)

-- What is known of a word, when it was read.
word_read :
    (room s p e : ℕ) (m m1 : Bytes)
    → get_token room m (some s) ≡ some (record { kind = 119; p1 = some p; p2 = some e }, m1)
    → (s ≤ p)
      × (p < e)
      × (ends_word (m1 e) ≡ true)
      × ((j : ℕ) → p ≤ j → j < e → (ends_word (m1 j) ≡ false) × (m1 j ≡ m j))
word_read room s p e m m1 h = of_word (
    get_token-IsRead room s m m1 (record { kind = 119; p1 = some p; p2 = some e })
      (skip_white room m s) refl h)
  where
    of_token :
        (q : ℕ) (k : Bytes)
        → skip_white room m s ≡ some (q, k)
        → AtToken room q k m1 (record { kind = 119; p1 = some p; p2 = some e })
        → (s ≤ p)
          × (p < e)
          × (ends_word (m1 e) ≡ true)
          × ((j : ℕ) → p ≤ j → j < e → (ends_word (m1 j) ≡ false) × (m1 j ≡ m j))
    of_token q k skip (at_end z same eq) = absurd (ground (arith, kind_at eq))
    of_token q k skip (at_symbol y same eq) = absurd (ground (arith, y, eq))
    of_token q k skip (at_word x found nz n same eq) =
        let starts : p ≡ q = some_inj p q (p1_at eq) in
        let stops : e ≡ x = some_inj e x (p2_at eq) in
        let (le, before, after, w, nw, last) = skip_white_lem room s q m k skip in
        let (lo, ends, inside) = word_end_lem room q x k found in
        let more : q < x = goes_on q x k lo (starts_word (k q) nz n last) ends in
        rw (same, starts, stops) (le, more, ends, λ j plo hi. (inside j plo hi, after j plo))

    of_word :
        IsRead room s m m1 (record { kind = 119; p1 = some p; p2 = some e })
        → (s ≤ p)
          × (p < e)
          × (ends_word (m1 e) ≡ true)
          × ((j : ℕ) → p ≤ j → j < e → (ends_word (m1 j) ≡ false) × (m1 j ≡ m j))
    of_word r = of_token r.at r.skipped r.skip r.token

-- What reading the next token does to a word that ends at e.
next_read :
    (room e : ℕ) (m1 m2 : Bytes) (t : Token)
    → get_token room m1 (some e) ≡ some (t, m2)
    → ends_word (m1 e) ≡ true
    → ((j : ℕ) → j < e → m2 j ≡ m1 j) × (m2 e ≡ 0)
next_read room e m1 m2 t h ends =
    of_read (get_token-IsRead room e m1 m2 t (skip_white room m1 e) refl h)
  where
    of_token :
        (q : ℕ) (k : Bytes)
        → skip_white room m1 e ≡ some (q, k)
        → AtToken room q k m2 t
        → ((j : ℕ) → j < e → m2 j ≡ m1 j) × (m2 e ≡ 0)
    of_token q k skip a =
        let (le, before, after, w, nw, last) = skip_white_lem room e q m1 k skip in
        (
          λ j lt. token_kept room q j k m2 t a (omega (arith, lt, le)) ∙ before j lt,
          elim (Bool-cases (is_white (m1 e))) [
            | inl y ↦ token_kept room q e k m2 t a ((w y).0) ∙ (w y).1
            | inr n ↦
                (let eq : q ≡ e = nw n in
                  let here : k e ≡ m1 e = after e (omega (arith, eq)) in
                  let ends_q : ends_word (k q) ≡ true = rw (eq, here) ends in
                  rw⁻¹ eq (token_ends room q k m2 t a ends_q last))
          ],
        )

    of_read : IsRead room e m1 m2 t → ((j : ℕ) → j < e → m2 j ≡ m1 j) × (m2 e ≡ 0)
    of_read r = of_token r.at r.skipped r.skip r.token

-- When `_gettoken` gives a word, and the token after it is read, then the word is not empty, has neither
-- white space nor symbols, is what the line has there, and ends in a NUL.
pub get_token_word :
    (room room' s p e : ℕ) (m m1 m2 : Bytes) (t : Token)
    → get_token room m (some s) ≡ some (record { kind = 119; p1 = some p; p2 = some e }, m1)
    → get_token room' m1 (some e) ≡ some (t, m2)
    → (s ≤ p)
      × (p < e)
      × (m2 e ≡ 0)
      × ((j : ℕ) → p ≤ j → j < e → (ends_word (m2 j) ≡ false) × (m2 j ≡ m j))
get_token_word room room' s p e m m1 m2 t first second =
    let (lo, more, ends, inside) = word_read room s p e m m1 first in
    let (kept, closed) = next_read room' e m1 m2 t second ends in
    (
      lo,
      more,
      closed,
      λ j plo hi. (rw (kept j hi) ((inside j plo hi).0), kept j hi ∙ (inside j plo hi).1),
    )
