-- ===== src/Fs/Name.antt =====
-- Names in file nodes: bytes in words, and `strcpy` against `strcmp`.
use demo2s.Base.{
  ℕ, zero, suc, ◌+◌, ◌*◌, ◌/◌, ◌%◌, ◌^◌, ◌<◌, ◌≡◌, refl, ◌∙◌, true, false, ap, arith, ◌==◌,
  if◌then◌else◌, Bool-cases, inl, inr, List, [], ◌∷◌, ==_refl,
}
use demo2s.Fs.State.{Ptr, Server, peek, poke}
use demo2s.Fs.Dir.{byte_at, set_byte, same_name, copy_name}

abbrev pub AreChars : List ℕ → Type 0
AreChars [] = Unit {0}
AreChars (c ∷ cs) = (c < 256) × AreChars cs

-- Byte q of a word in which byte r was set.
get_put :
    (r q w v : ℕ)
    → r < 4
    → q < 4
    → v < 256
    → (w / (256 ^ r * 256) * (256 ^ r * 256) + v * 256 ^ r + w % 256 ^ r) / 256 ^ q % 256
      ≡ (if r == q then v else w / 256 ^ q % 256)
get_put zero zero w v hr hq h = omega arith
get_put zero (suc zero) w v hr hq h = omega arith
get_put zero (suc (suc zero)) w v hr hq h = omega arith
get_put zero (suc (suc (suc zero))) w v hr hq h = omega arith
get_put zero (suc (suc (suc (suc q)))) w v hr hq h = absurd (omega arith)
get_put (suc zero) zero w v hr hq h = omega arith
get_put (suc zero) (suc zero) w v hr hq h = omega arith
get_put (suc zero) (suc (suc zero)) w v hr hq h = omega arith
get_put (suc zero) (suc (suc (suc zero))) w v hr hq h = omega arith
get_put (suc zero) (suc (suc (suc (suc q)))) w v hr hq h = absurd (omega arith)
get_put (suc (suc zero)) zero w v hr hq h = omega arith
get_put (suc (suc zero)) (suc zero) w v hr hq h = omega arith
get_put (suc (suc zero)) (suc (suc zero)) w v hr hq h = omega arith
get_put (suc (suc zero)) (suc (suc (suc zero))) w v hr hq h = omega arith
get_put (suc (suc zero)) (suc (suc (suc (suc q)))) w v hr hq h = absurd (omega arith)
get_put (suc (suc (suc zero))) zero w v hr hq h = omega arith
get_put (suc (suc (suc zero))) (suc zero) w v hr hq h = omega arith
get_put (suc (suc (suc zero))) (suc (suc zero)) w v hr hq h = omega arith
get_put (suc (suc (suc zero))) (suc (suc (suc zero))) w v hr hq h = omega arith
get_put (suc (suc (suc zero))) (suc (suc (suc (suc q)))) w v hr hq h = absurd (omega arith)
get_put (suc (suc (suc (suc r)))) q w v hr hq h = absurd (omega arith)

set_word_lem :
    (s : Server) (b o k j w : ℕ)
    → peek (poke (b, o + k / 4) w s) (b, o + j / 4)
      ≡ (if k / 4 == j / 4 then w else peek s (b, o + j / 4))
set_word_lem s b o k j w = ground arith

same_word :
    (a k j v : ℕ) (m : ℕ → ℕ)
    → (k / 4 == j / 4) ≡ true
    → (if k % 4 == j % 4 then v else m (a + k / 4) / 256 ^ (j % 4) % 256)
      ≡ (if k == j then v else m (a + j / 4) / 256 ^ (j % 4) % 256)
same_word a k j v m e =
    let eq : k / 4 ≡ j / 4 = ground arith in
    rw eq (elim (Bool-cases (k == j)) [ inl y ↦ ground arith | inr n ↦ ground arith ])

-- A byte is stored at its place and at no other.
byte_at-set_byte :
    (s : Server) (f : Ptr) (k j v : ℕ)
    → v < 256
    → byte_at (set_byte f k v s) f j ≡ (if k == j then v else byte_at s f j)
byte_at-set_byte s (b, o) k j v h =
    let w = peek s (b, o + k / 4) in
    let low = 256 ^ (k % 4) in
    rw (set_word_lem s b o k j (w / (low * 256) * (low * 256) + v * low + w % low))
      (elim (Bool-cases (k / 4 == j / 4)) [
        | inl e ↦ rw e (
            get_put (k % 4) (j % 4) w v (omega arith) (omega arith) h
            ∙ same_word o k j v (s.mem b) e)
        | inr e ↦ rw e (ground arith)
      ])

-- `strcpy` stores at and after byte k only.
copy_name-below :
    (cs : List ℕ) (k j : ℕ) (s : Server) (f : Ptr)
    → AreChars cs
    → j < k
    → byte_at (copy_name f k cs s) f j ≡ byte_at s f j
unfolding copy_name
copy_name-below [] k j s f h lt = byte_at-set_byte s f k j 0 (omega arith) ∙ ground arith
copy_name-below (c ∷ cs) k j s f h lt =
    copy_name-below cs (k + 1) j (set_byte f k c s) f h.1 (omega arith)
    ∙ byte_at-set_byte s f k j c (h.0)
    ∙ ground arith

same_name-copy_name_from :
    (cs : List ℕ) (k : ℕ) (s : Server) (f : Ptr)
    → AreChars cs
    → same_name (copy_name f k cs s) f k cs ≡ true
unfolding copy_name same_name
same_name-copy_name_from [] k s f h = rw (byte_at-set_byte s f k k 0 (omega arith), ==_refl k) refl
same_name-copy_name_from (c ∷ cs) k s f h =
    rw
      (
        copy_name-below cs (k + 1) k (set_byte f k c s) f h.1 (omega arith),
        byte_at-set_byte s f k k c (h.0),
        ==_refl k,
        ==_refl c,
        same_name-copy_name_from cs (k + 1) (set_byte f k c s) f h.1,
      )
      refl

-- The name that `file_create` copies into a node is the name that `dir_lookup` then finds there.
pub same_name-copy_name :
    (name : List ℕ) (s : Server) (f : Ptr)
    → AreChars name
    → same_name (copy_name f 0 name s) f 0 name ≡ true
same_name-copy_name name s f h = same_name-copy_name_from name 0 s f h

-- The characters are not NUL.
abbrev pub NoNul : List ℕ → Type 0
NoNul [] = Unit {0}
NoNul (c ∷ cs) = ((c == 0) ≡ false) × NoNul cs

head_byte :
    (c : ℕ) (cs : List ℕ) (k : ℕ) (s : Server) (f : Ptr)
    → c < 256
    → AreChars cs
    → byte_at (copy_name f k (c ∷ cs) s) f k ≡ c
unfolding copy_name
head_byte c cs k s f h hs =
    copy_name-below cs (k + 1) k (set_byte f k c s) f hs (omega arith)
    ∙ byte_at-set_byte s f k k c h
    ∙ rw (==_refl k) refl

last_byte : (k : ℕ) (s : Server) (f : Ptr) → byte_at (copy_name f k [] s) f k ≡ 0
unfolding copy_name
last_byte k s f = byte_at-set_byte s f k k 0 (omega arith) ∙ rw (==_refl k) refl

only_name :
    (cs ds : List ℕ) (k : ℕ) (s : Server) (f : Ptr)
    → AreChars cs
    → NoNul cs
    → NoNul ds
    → same_name (copy_name f k cs s) f k ds ≡ true
    → ds ≡ cs
unfolding same_name copy_name
only_name [] [] k s f h n m e = refl
only_name [] (d ∷ ds) k s f h n m e = absurd (ground (arith, last_byte k s f))
only_name (c ∷ cs) [] k s f h n m e = absurd (ground (arith, head_byte c cs k s f h.0 h.1))
only_name (c ∷ cs) (d ∷ ds) k s f h n m e =
    let eq : d ≡ c = ground (arith, head_byte c cs k s f h.0 h.1) in
    let rest : same_name (copy_name f (k + 1) cs (set_byte f k c s)) f (k + 1) ds ≡ true =
      ground arith in
    rw eq (ap (λ t. c ∷ t) (only_name cs ds (k + 1) (set_byte f k c s) f h.1 n.1 m.1 rest))

-- No other name than the one that `file_create` copied into a node is found there.
pub copy_name_unique :
    (name other : List ℕ) (s : Server) (f : Ptr)
    → AreChars name
    → NoNul name
    → NoNul other
    → same_name (copy_name f 0 name s) f 0 other ≡ true
    → other ≡ name
copy_name_unique name other s f h n m e = only_name name other 0 s f h n m e
