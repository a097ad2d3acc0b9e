-- ===== src/Kern/Printf/Formats.antt =====
-- What `kprintf` prints for text and for numbers.
use demo2s.Base.{
  ℕ, zero, suc, ◌-◌, ◌^◌, ◌≤◌, ◌<◌, ◌≡◌, refl, ap, sym, ◌∙◌, true, false, Option, none, some, List,
  [], ◌∷◌, ◌++◌, arith, ◌==◌, ltb, length, length-append, bit_or,
}
use mathlib.Core.List.{append_assoc, append-nil}
use demo2s.Kern.Printf.{
  Args, Out, Spec, word, arg, put, put_text, colored, padded, replicate, plain_spec, put_number,
  next_spec, directive, kprintf_from, kprintf,
}
use demo2s.Kern.Printf.Digits.{number, ksprintn_lem}

-- No character of the text is '%'.
abbrev pub IsPlain : List ℕ → Type 0
IsPlain [] = Unit {0}
IsPlain (c ∷ cs) = ((c == 37) ≡ false) × IsPlain cs

-- One list of characters put after another.
put-put : (cs ds : List ℕ) (o : Out) → put ds (put cs o) ≡ put (cs ++ ds) o
put-put cs ds o = ap (λ l. record { chars = l; color = o.color }) (append_assoc o.chars cs ds)

put-nil : (o : Out) → put [] o ≡ o
put-nil o = ap (λ l. record { chars = l; color = o.color }) (append-nil o.chars)

text_copied :
    (deeper : List ℕ → Args → Out → Option Out) (cs fmt : List ℕ) (va : Args) (o : Out)
    → IsPlain cs
    → kprintf_from deeper none (cs ++ fmt) va o ≡ kprintf_from deeper none fmt va (put_text cs o)
unfolding kprintf_from
text_copied deeper [] fmt va o h = ap (kprintf_from deeper none fmt va) (sym (put-nil o))
text_copied deeper (c ∷ cs) fmt va o h = rw (h.0) (
    text_copied deeper cs fmt va (put (bit_or c o.color ∷ []) o) h.1
    ∙ ap (kprintf_from deeper none fmt va) (put-put (bit_or c o.color ∷ []) (colored o.color cs) o))

length-replicate : (n c : ℕ) → length (replicate n c) ≡ n
length-replicate zero c = refl
length-replicate (suc n) c = omega (arith, length-replicate n c)

-- A number in its field.
put_number_lem :
    (sp : Spec) (prefix : List ℕ) (uq base : ℕ) (va : Args) (o : Out)
    → 2 ≤ base
    → base ≤ 16
    → uq < 2 ^ 64
    → (ds : List ℕ) × (put_number sp prefix uq base va o
        ≡ some (va, put (prefix ++ padded sp ds) o))
      × (number base ds ≡ uq)
      × (sp.width ≤ length (padded sp ds))
put_number_lem sp prefix uq base va o lo hi lt =
    let r = ksprintn_lem uq base lo hi lt in
    (
      r.0,
      rw (r.1, put_number) refl,
      r.2,
      omega (
        arith,
        length-append {0} (replicate (sp.width - length r.0) sp.padc) r.0,
        length-replicate (sp.width - length r.0) sp.padc,
      ),
    )

-- `kprintf` copies the text before a directive, each character with the color, and goes on after it.
pub kprintf_text :
    (depth : ℕ) (cs fmt : List ℕ) (va : Args) (o : Out)
    → IsPlain cs
    → kprintf (suc depth) (cs ++ fmt) va o ≡ kprintf (suc depth) fmt va (put_text cs o)
unfolding kprintf
kprintf_text depth cs fmt va o h = text_copied (kprintf depth) cs fmt va o h

spec_starts :
    (deeper : List ℕ → Args → Out → Option Out) (fmt : List ℕ) (va : Args) (o : Out)
    → kprintf_from deeper none (37 ∷ fmt) va o ≡ kprintf_from deeper (some plain_spec) fmt va o
unfolding kprintf_from
spec_starts deeper fmt va o = refl

spec_ends :
    (deeper : List ℕ → Args → Out → Option Out) (c : ℕ) (sp : Spec) (fmt : List ℕ) (va va' : Args)
    (o o' : Out)
    → next_spec c sp ≡ none
    → directive deeper c sp va o ≡ some (va', o')
    → kprintf_from deeper (some sp) (c ∷ fmt) va o ≡ kprintf_from deeper none fmt va' o'
unfolding kprintf_from
spec_ends deeper c sp fmt va va' o o' e d = ground (arith, e, d)

-- %d on an `int`, which is widened without its sign and so never reaches the branch for negative ones.
decimal_directive :
    (deeper : List ℕ → Args → Out → Option Out) (v : ℕ) (va : Args) (o : Out)
    → v < 2 ^ 32
    → directive deeper 100 plain_spec (arg (word v) va) o ≡ put_number plain_spec [] v 10 va o
unfolding directive
decimal_directive deeper v va o lt = rw positive refl
  where
    positive : ltb v (2 ^ 63) ≡ true
    positive = ground arith

not_a_flag : next_spec 100 plain_spec ≡ none
unfolding next_spec
not_a_flag = refl

-- %d on an `int` prints digits alone, which read in base 10 are the word that the `int` is: a negative
-- int n comes out as 2^32 + n, without a sign.
pub kprintf_decimal :
    (depth v : ℕ) (fmt : List ℕ) (va : Args) (o : Out)
    → v < 2 ^ 32
    → (ds : List ℕ) × (kprintf (suc depth) (37 ∷ 100 ∷ fmt) (arg (word v) va) o
        ≡ kprintf (suc depth) fmt va (put ds o))
      × (number 10 ds ≡ v)
unfolding kprintf
kprintf_decimal depth v fmt va o lt =
    let r = put_number_lem plain_spec [] v 10 va o (omega arith) (omega arith) (omega arith) in
    (
      r.0,
      spec_starts (kprintf depth) (100 ∷ fmt) (arg (word v) va) o
          ∙ spec_ends (kprintf depth) 100 plain_spec fmt (arg (word v) va) va o (put r.0 o)
              not_a_flag
              (decimal_directive (kprintf depth) v va o lt
                ∙ r.1
                ∙ ap (λ l. some (va, put l o)) (no_field r.0)),
      r.2,
    )
  where
    no_field : (ds : List ℕ) → padded plain_spec ds ≡ ds
    no_field ds =
        let none_left : 0 - length ds ≡ 0 = omega arith in ap (λ n. replicate n 32 ++ ds) none_left
