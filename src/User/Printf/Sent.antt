-- ===== src/User/Printf/Sent.antt =====
-- What a format sends to the buffer, without the buffer: the reference that the other files compare
-- user/printf.c with, and the induction over a format that they share.
use demo2s.Base.{
  ℕ, zero, suc, ◌≡◌, refl, ◌∙◌, ap, sym, subst, Bool-cases, inl, inr, Option, none, some, List, [],
  ◌∷◌, ◌++◌, ◌==◌, if◌then◌else◌, arith,
}
use mathlib.Core.List.{append_assoc, append-nil}
use demo2s.Kern.Printf.{Args, Spec, plain_spec, next_spec}
use demo2s.User.Printf.{
  Dest, buf_putc, buf_puts, Step, emit, recolor, call, step_of, perform, perform_if, format_from,
}

-- The characters of one step, where `deeper` has those of a nested call.
abbrev pub sent_by : (List ℕ → Args → Option (List ℕ)) → Option Step → Option (Args × List ℕ)
sent_by deeper none = none
sent_by deeper (some (emit cs ap)) = some (ap, cs)
sent_by deeper (some (recolor w ap)) = some (ap, [])
sent_by deeper (some (call fmt inner ap)) = elim (deeper fmt inner) [
  | none ↦ none
  | some cs ↦ some (ap, cs)
]

abbrev pub before : List ℕ → Option (List ℕ) → Option (List ℕ)
before cs none = none
before cs (some t) = some (cs ++ t)

abbrev pub continued : (Args → Option (List ℕ)) → Option (Args × List ℕ) → Option (List ℕ)
continued k none = none
continued k (some (ap, cs)) = before cs (k ap)

unfoldable pub sent_from :
    (List ℕ → Args → Option (List ℕ)) → Option Spec → List ℕ → Args → Option (List ℕ)
sent_from deeper none [] ap = some []
sent_from deeper none (c ∷ fmt) ap =
    let plain = before (c ∷ []) (sent_from deeper none fmt ap) in
    let spec = sent_from deeper (some plain_spec) fmt ap in if c == 37 then spec else plain
sent_from deeper (some sp) [] ap = none
sent_from deeper (some sp) (c ∷ fmt) ap = elim (next_spec c sp) [
  | some sp' ↦ sent_from deeper (some sp') fmt ap
  | none ↦ continued (λ ap'. sent_from deeper none fmt ap') (sent_by deeper (step_of c sp ap))
]

-- All characters of a format, those of nested calls in their places, for calls that are nested less
-- deep than the fuel; none where the source has no behaviour.
unfoldable pub sent : ℕ → List ℕ → Args → Option (List ℕ)
unfolding sent_from
sent zero fmt ap = none
sent (suc depth) fmt ap = sent_from (sent depth) none fmt ap

-- A relation between what was sent and the buffer that every character, every colour and every nested
-- call keep.
pub record Keeps (ebuf : ℕ) (R : List ℕ → Dest → Type 0)
    (deeper : List ℕ → Args → Dest → Option Dest) (below : List ℕ → Args → Option (List ℕ))
    : Type 0 where
  pub put_kept : (c : ℕ) (cs : List ℕ) (d : Dest) → R cs d → R (cs ++ c ∷ []) (buf_putc ebuf c d)
  pub color_kept : (w : ℕ) (cs : List ℕ) (d : Dest) → R cs d → R cs (record d { color = w })
  pub call_kept :
      (fmt : List ℕ) (ap : Args) (t cs : List ℕ) (d : Dest)
      → below fmt ap ≡ some t
      → R cs d
      → (d' : Dest) × (deeper fmt ap d ≡ some d') × R (cs ++ t) d'

module _ (ebuf : ℕ) (R : List ℕ → Dest → Type 0) (deeper : List ℕ → Args → Dest → Option Dest)
    (below : List ℕ → Args → Option (List ℕ)) (laws : Keeps ebuf R deeper below) where
  puts_kept : (t cs : List ℕ) (d : Dest) → R cs d → R (cs ++ t) (buf_puts ebuf t d)
  unfolding buf_puts
  puts_kept [] cs d r = subst (λ xs. R xs d) (sym (append-nil cs)) r
  puts_kept (c ∷ t) cs d r =
      subst (λ xs. R xs (buf_puts ebuf t (buf_putc ebuf c d))) (append_assoc cs (c ∷ []) t)
        (puts_kept t (cs ++ c ∷ []) (buf_putc ebuf c d) (laws.put_kept c cs d r))

  nested_kept :
      (fmt : List ℕ) (inner rest va' : Args) (t cs : List ℕ) (d : Dest) (o : Option (List ℕ))
      → below fmt inner ≡ o
      → sent_by (λ _ _. o) (some (call fmt inner rest)) ≡ some (va', t)
      → R cs d
      → (d' : Dest) × (perform deeper ebuf (call fmt inner rest) d ≡ some (va', d'))
        × R (cs ++ t) d'
  nested_kept fmt inner rest va' t cs d none b e r = absurd (cc)
  nested_kept fmt inner rest va' t cs d (some u) b e r =
      let (d', run, r') = laws.call_kept fmt inner u cs d b r in
      let et : u ≡ t = cc in
      let ea : rest ≡ va' = cc in
      (d', rw (perform, run, ea) refl, subst (λ x. R (cs ++ x) d') et r')

  -- One step
  step_kept :
      (o : Option Step) (va' : Args) (t cs : List ℕ) (d : Dest)
      → sent_by below o ≡ some (va', t)
      → R cs d
      → (d' : Dest) × (perform_if deeper ebuf o d ≡ some (va', d')) × R (cs ++ t) d'
  step_kept none va' t cs d e r = absurd (cc)
  step_kept (some (emit u a)) va' t cs d e r =
      let et : u ≡ t = cc in
      let ea : a ≡ va' = cc in
      (
        buf_puts ebuf u d,
        rw ea refl,
        subst (λ x. R (cs ++ x) (buf_puts ebuf u d)) et (puts_kept u cs d r),
      )
  step_kept (some (recolor w a)) va' t cs d e r =
      let et : [] ≡ t = cc in
      let ea : a ≡ va' = cc in
      (
        record d { color = w },
        rw ea refl,
        subst (λ x. R (cs ++ x) (record d { color = w })) et
            (subst (λ x. R x (record d { color = w })) (sym (append-nil cs))
              (laws.color_kept w cs d r)),
      )
  step_kept (some (call fmt inner a)) va' t cs d e r =
      nested_kept fmt inner a va' t cs d (below fmt inner) refl e r

  IsKept : List ℕ → Type 0
  IsKept fmt =
      (sp : Option Spec) (va : Args) (t cs : List ℕ) (d : Dest)
      → sent_from below sp fmt va ≡ some t
      → R cs d
      → (d' : Dest) × (format_from deeper ebuf sp fmt va d ≡ some d') × R (cs ++ t) d'

  -- What follows a directive
  rest_kept :
      (fmt : List ℕ) (va : Args) (u t cs : List ℕ) (d : Dest) (o : Option (List ℕ))
      → IsKept fmt
      → sent_from below none fmt va ≡ o
      → before u o ≡ some t
      → R (cs ++ u) d
      → (d' : Dest) × (format_from deeper ebuf none fmt va d ≡ some d') × R (cs ++ t) d'
  unfolding IsKept
  rest_kept fmt va u t cs d none ih s e r = absurd (cc)
  rest_kept fmt va u t cs d (some v) ih s e r =
      let (d', run, r') = ih none va v (cs ++ u) d s r in
      let et : u ++ v ≡ t = cc in
      (d', run, subst (λ x. R x d') (append_assoc cs u v ∙ ap (λ x. cs ++ x) et) r')

  -- A directive
  directive_kept :
      (c : ℕ) (sp : Spec) (fmt : List ℕ) (va : Args) (t cs : List ℕ) (d : Dest)
      (o : Option (Args × List ℕ))
      → IsKept fmt
      → next_spec c sp ≡ none
      → sent_by below (step_of c sp va) ≡ o
      → continued (λ va'. sent_from below none fmt va') o ≡ some t
      → R cs d
      → (d' : Dest) × (format_from deeper ebuf (some sp) (c ∷ fmt) va d ≡ some d') × R (cs ++ t) d'
  unfolding format_from
  directive_kept c sp fmt va t cs d none ih n s e r = absurd (cc)
  directive_kept c sp fmt va t cs d (some (va', u)) ih n s e r =
      let (d1, run1, r1) = step_kept (step_of c sp va) va' u cs d s r in
      let (d', run, r') = rest_kept fmt va' u t cs d1 (sent_from below none fmt va') ih refl e r1 in
      (d', rw (format_from, n, run1) run, r')

  spec_kept :
      (c : ℕ) (sp : Spec) (fmt : List ℕ) (va : Args) (t cs : List ℕ) (d : Dest) (n : Option Spec)
      → IsKept fmt
      → next_spec c sp ≡ n
      → sent_from below (some sp) (c ∷ fmt) va ≡ some t
      → R cs d
      → (d' : Dest) × (format_from deeper ebuf (some sp) (c ∷ fmt) va d ≡ some d') × R (cs ++ t) d'
  unfolding format_from sent_from IsKept
  spec_kept c sp fmt va t cs d (some sp') ih n e r =
      let (d', run, r') = ih (some sp') va t cs d (ground (arith, n, e)) r in
      (d', rw (format_from, n) run, r')
  spec_kept c sp fmt va t cs d none ih n e r =
      directive_kept c sp fmt va t cs d (sent_by below (step_of c sp va)) ih n refl
        (ground (arith, n, e)) r

  format-IsKept : (fmt : List ℕ) → IsKept fmt
  unfolding format_from sent_from IsKept
  format-IsKept [] none va t cs d e r =
      let et : [] ≡ t = cc in
      (d, refl, subst (λ x. R x d) (sym (append-nil cs) ∙ ap (λ x. cs ++ x) et) r)
  format-IsKept (c ∷ fmt) none va t cs d e r = elim (Bool-cases (c == 37)) [
    | inl p ↦
        let (d', run, r') =
          format-IsKept fmt (some plain_spec) va t cs d (ground (arith, p, e)) r in
        (d', rw (format_from, p) run, r')
    | inr p ↦
        let (d', run, r') =
          rest_kept fmt va (c ∷ []) t cs (buf_putc ebuf c d) (sent_from below none fmt va)
            (format-IsKept fmt) refl (ground (arith, p, e)) (laws.put_kept c cs d r) in
        (d', rw (format_from, p) run, r')
  ]
  format-IsKept [] (some sp) va t cs d e r = absurd (cc)
  format-IsKept (c ∷ fmt) (some sp) va t cs d e r =
      spec_kept c sp fmt va t cs d (next_spec c sp) (format-IsKept fmt) refl e r

  pub format_kept :
      (fmt : List ℕ) (va : Args) (t : List ℕ) (d : Dest)
      → sent_from below none fmt va ≡ some t
      → R [] d
      → (d' : Dest) × (format_from deeper ebuf none fmt va d ≡ some d') × R t d'
  unfolding IsKept
  format_kept fmt va t d e r = format-IsKept fmt none va t [] d e r
