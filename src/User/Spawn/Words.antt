-- ===== src/User/Spawn/Words.antt =====
-- Words in memory, for user/spawn.c.
use demo2s.Base.{
  ℕ, zero, suc, ◌+◌, ◌/◌, ◌%◌, ◌^◌, ◌≤◌, ◌<◌, ◌≡◌, ◌⊎◌, refl, sym, ap, ◌∙◌, List, [], ◌∷◌, update,
  update_other, length, arith,
}
use demo2s.User.Str.{Bytes, bzero}
use demo2s.User.Str.Laws.{HasString}
use demo2s.User.Spawn.{load_word, store_word}

pub store_word_kept : (m : Bytes) (a w i : ℕ) → (i < a) ⊎ (a + 4 ≤ i) → store_word m a w i ≡ m i
unfolding store_word
store_word_kept m a w i out = ground (arith, out)

byte0 : (m : Bytes) (a w : ℕ) → store_word m a w a ≡ w % 256
unfolding store_word
byte0 m a w = ground arith

byte1 : (m : Bytes) (a w : ℕ) → store_word m a w (a + 1) ≡ w / 256 % 256
unfolding store_word
byte1 m a w = ground arith

byte2 : (m : Bytes) (a w : ℕ) → store_word m a w (a + 2) ≡ w / 65536 % 256
unfolding store_word
byte2 m a w = ground arith

byte3 : (m : Bytes) (a w : ℕ) → store_word m a w (a + 3) ≡ w / 16777216 % 256
unfolding store_word
byte3 m a w = ground arith

pub load_word-store_word : (m : Bytes) (a w : ℕ) → w < 2 ^ 32 → load_word (store_word m a w) a ≡ w
unfolding load_word
load_word-store_word m a w lt = omega (arith, byte0 m a w, byte1 m a w, byte2 m a w, byte3 m a w)

pub load_word-same :
    (m m' : Bytes) (a b : ℕ)
    → ((i : ℕ) → i < 4 → m' (b + i) ≡ m (a + i))
    → load_word m' b ≡ load_word m a
unfolding load_word
load_word-same m m' a b same = omega (
  arith,
  same 0 (omega arith),
  same 1 (omega arith),
  same 2 (omega arith),
  same 3 (omega arith),
  ap m z,
  ap m' y,
)
  where
    z : a + 0 ≡ a
    z = omega arith

    y : b + 0 ≡ b
    y = omega arith

first : (m m' : Bytes) (s t : ℕ) → m' (t + 0) ≡ m (s + 0) → m' t ≡ m s
first m m' s t e =
    let z : s + 0 ≡ s = omega arith in let y : t + 0 ≡ t = omega arith in sym (ap m' y) ∙ e ∙ ap m z

shifted :
    (m m' : Bytes) (s t i : ℕ) → m' (t + suc i) ≡ m (s + suc i) → m' (t + 1 + i) ≡ m (s + 1 + i)
shifted m m' s t i e =
    let z : s + suc i ≡ s + 1 + i = omega arith in
    let y : t + suc i ≡ t + 1 + i = omega arith in sym (ap m' y) ∙ e ∙ ap m z

pub HasString-same :
    (cs : List ℕ) (m m' : Bytes) (s t : ℕ)
    → ((i : ℕ) → i < suc (length cs) → m' (t + i) ≡ m (s + i))
    → HasString m s cs
    → HasString m' t cs
unfolding HasString
HasString-same [] m m' s t same h = first m m' s t (same 0 (omega arith)) ∙ h
HasString-same (c ∷ cs) m m' s t same (e, ne, h) = (
  first m m' s t (same 0 (omega arith)) ∙ e,
  ne,
  HasString-same cs m m' (s + 1) (t + 1)
      (λ i lt. shifted m m' s t i (same (suc i) (omega (arith, lt)))) h,
)

pub bzero_kept : (n v i : ℕ) (m : Bytes) → (i < v) ⊎ (v + n ≤ i) → bzero n m v i ≡ m i
unfolding bzero
bzero_kept zero v i m out = refl
bzero_kept (suc n) v i m out =
    bzero_kept n (v + 1) i (update m v 0) (omega (arith, out))
    ∙ update_other m v i 0 (λ e. omega (arith, e, out))
