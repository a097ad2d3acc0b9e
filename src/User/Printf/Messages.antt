-- ===== src/User/Printf/Messages.antt =====
-- Messages of user/printf.c that are put together by several calls, as `warn` and `_panic` do.
use demo2s.Base.{
  ℕ, ◌+◌, ◌≤◌, ◌<◌, ◌≡◌, inl, refl, sym, ap, ◌∙◌, subst, Option, none, some, List, [], ◌∷◌, ◌++◌,
  length, length-append, arith,
}
use mathlib.Core.List.{append-nil}
use demo2s.Kern.Printf.{Args}
use demo2s.User.Str.{Bytes}
use demo2s.User.Printf.{Dest, vsnprintf, append_all, warn_calls, panic_calls}
use demo2s.User.Printf.Sent.{sent, before}
use demo2s.User.Printf.Content.{Holds, Holds-same, Holds-append, Ended, vsnprintf-Ended}

-- The texts of the calls, one after the other
unfoldable pub sent_all : ℕ → List (List ℕ × Args) → Option (List ℕ)
sent_all depth [] = some []
sent_all depth ((fmt, va) ∷ calls) = elim (sent depth fmt va) [
  | none ↦ none
  | some t ↦ before t (sent_all depth calls)
]

Ended-append :
    (lo ebuf start : ℕ) (m0 : Bytes) (t u : List ℕ) (d e : Dest)
    → Ended lo ebuf start m0 t d
    → Ended lo ebuf d.buf d.mem u e
    → Ended lo ebuf start m0 (t ++ u) e
Ended-append lo ebuf start m0 t u d e f g =
    let n = length-append t u in
    let at_call : start + length (t ++ u) < ebuf → d.buf ≡ start + length t =
      λ h. f.place (omega (arith, h, n)) in
    let fits : start + length (t ++ u) < ebuf → d.buf + length u < ebuf =
      λ h. omega (arith, h, n, at_call h) in
    record {
      low = g.low;
      high = g.high;
      outside = λ i out. g.outside i out ∙ f.outside i out;
      nul = g.nul;
      place = λ h. omega (arith, g.place (fits h), at_call h, n);
      held = λ h.
          Holds-append t u e.mem start
            (Holds-same t d.mem e.mem start
              (λ i lo' hi. g.kept (fits h) i (inl (omega (arith, hi, at_call h))))
              (f.held (omega (arith, h, n))))
            (subst (λ x. Holds e.mem x u) (at_call h) (g.held (fits h)));
      closed = λ h.
          let i : d.buf + length u ≡ start + length (t ++ u) = omega (arith, at_call h, n) in
          subst (λ x. e.mem x ≡ 0) i (g.closed (fits h));
      kept = λ h i out.
          g.kept (fits h) i (omega (arith, out, n, at_call h))
          ∙ f.kept (omega (arith, h, n)) i (omega (arith, out, n));
    }

AllEnded : ℕ → ℕ → ℕ → List (List ℕ × Args) → List ℕ → Dest → Type 0
AllEnded depth lo ebuf calls t d =
    (d' : Dest) × (append_all depth ebuf calls d ≡ some d') × Ended lo ebuf d.buf d.mem t d'

-- One call more in front
call_first :
    (depth ebuf : ℕ) (fmt : List ℕ) (va : Args) (calls : List (List ℕ × Args)) (d d1 d2 : Dest)
    → vsnprintf depth ebuf fmt va d ≡ some d1
    → append_all depth ebuf calls d1 ≡ some d2
    → append_all depth ebuf ((fmt, va) ∷ calls) d ≡ some d2
unfolding append_all
call_first depth ebuf fmt va calls d d1 d2 one more = rw (append_all, one) more

parts :
    (depth : ℕ) (fmt : List ℕ) (va : Args) (calls : List (List ℕ × Args)) (t : List ℕ)
    → sent_all depth ((fmt, va) ∷ calls) ≡ some t
    → (u v : List ℕ) × (sent depth fmt va ≡ some u) × (sent_all depth calls ≡ some v) × (u ++ v ≡ t)
unfolding sent_all
parts depth fmt va calls t e = both (sent depth fmt va) (sent_all depth calls) refl refl e
  where
    both :
        (o p : Option (List ℕ))
        → sent depth fmt va ≡ o
        → sent_all depth calls ≡ p
        → ◌≡◌ {A = Option (List ℕ)} (elim o [ none ↦ none | some t ↦ before t p ]) (some t)
        → (u v : List ℕ) × (sent depth fmt va ≡ some u)
          × (sent_all depth calls ≡ some v)
          × (u ++ v ≡ t)
    both none p a b e = absurd (cc)
    both (some u) none a b e = absurd (cc)
    both (some u) (some v) a b e = (u, v, a, b, cc)

all_nil : (depth : ℕ) (v : List ℕ) → sent_all depth [] ≡ some v → v ≡ []
unfolding sent_all
all_nil depth v e = cc

no_calls : (depth ebuf : ℕ) (d : Dest) → append_all depth ebuf [] d ≡ some d
unfolding append_all
no_calls depth ebuf d = refl

append_all-Ended :
    (depth lo ebuf : ℕ) (fmt : List ℕ) (va : Args) (calls : List (List ℕ × Args)) (t : List ℕ)
    (d : Dest)
    → sent_all depth ((fmt, va) ∷ calls) ≡ some t
    → lo + 2 ≤ ebuf
    → lo ≤ d.buf
    → d.buf ≤ ebuf
    → AllEnded depth lo ebuf ((fmt, va) ∷ calls) t d
unfolding AllEnded
append_all-Ended depth lo ebuf fmt va [] t d e two le hi =
    let (u, v, eu, ev, et) = parts depth fmt va [] t e in
    let nothing : v ≡ [] = sent_all_nil ev in
    let (d1, run, ended) = vsnprintf-Ended depth lo ebuf fmt va u d eu two le hi in
    let eq : u ≡ t = sym (append-nil u) ∙ sym (ap (λ x. u ++ x) nothing) ∙ et in
    (
      d1,
      call_first depth ebuf fmt va [] d d1 d1 run (no_calls depth ebuf d1),
      subst (λ x. Ended lo ebuf d.buf d.mem x d1) eq ended,
    )
  where
    sent_all_nil : {v : List ℕ} → sent_all depth [] ≡ some v → v ≡ []
    sent_all_nil {v} e = all_nil depth v e
append_all-Ended depth lo ebuf fmt va ((fmt', va') ∷ calls) t d e two le hi =
    let (u, v, eu, ev, et) = parts depth fmt va ((fmt', va') ∷ calls) t e in
    let (d1, run, f) = vsnprintf-Ended depth lo ebuf fmt va u d eu two le hi in
    let (d2, more, g) =
      append_all-Ended depth lo ebuf fmt' va' calls v d1 ev two f.low (omega (arith, f.high)) in
    (
      d2,
      call_first depth ebuf fmt va ((fmt', va') ∷ calls) d d1 d2 run more,
      subst (λ x. Ended lo ebuf d.buf d.mem x d2) et
          (Ended-append lo ebuf d.buf d.mem u v d1 d2 f g),
    )

-- `warn` puts its message together in the 256 bytes at `b`, whatever `argv0` is and however long the
-- format's text is: it writes in these bytes only, and leaves a NUL there. A message of at most 255
-- characters stands there whole, its parts one after the other, with its NUL.
pub warn_calls-Ended :
    (depth b : ℕ) (argv0 : Option (List ℕ)) (fmt : List ℕ) (va : Args) (t : List ℕ) (d : Dest)
    → sent_all depth (warn_calls argv0 fmt va) ≡ some t
    → d.buf ≡ b
    → (d' : Dest) × (append_all depth (b + 256) (warn_calls argv0 fmt va) d ≡ some d')
      × Ended b (b + 256) d.buf d.mem t d'
unfolding warn_calls AllEnded
warn_calls-Ended depth b none fmt va t d e h =
    append_all-Ended depth b (b + 256) _ _ _ t d e (omega arith) (omega (arith, h))
      (omega (arith, h))
warn_calls-Ended depth b (some name) fmt va t d e h =
    append_all-Ended depth b (b + 256) _ _ _ t d e (omega arith) (omega (arith, h))
      (omega (arith, h))

-- So does `_panic`.
pub panic_calls-Ended :
    (depth b : ℕ) (argv0 : Option (List ℕ)) (file : List ℕ) (line : ℕ) (fmt : List ℕ) (va : Args)
    (t : List ℕ) (d : Dest)
    → sent_all depth (panic_calls argv0 file line fmt va) ≡ some t
    → d.buf ≡ b
    → (d' : Dest) × (append_all depth (b + 256) (panic_calls argv0 file line fmt va) d ≡ some d')
      × Ended b (b + 256) d.buf d.mem t d'
unfolding panic_calls AllEnded
panic_calls-Ended depth b none file line fmt va t d e h =
    append_all-Ended depth b (b + 256) _ _ _ t d e (omega arith) (omega (arith, h))
      (omega (arith, h))
panic_calls-Ended depth b (some name) file line fmt va t d e h =
    append_all-Ended depth b (b + 256) _ _ _ t d e (omega arith) (omega (arith, h))
      (omega (arith, h))
