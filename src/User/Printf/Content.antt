-- ===== src/User/Printf/Content.antt =====
-- `vsnprintf` of user/printf.c, with calls nested as deep as %e and %r need: where it writes, where it
-- leaves the NUL, and the text that it leaves when the buffer is large enough.
use demo2s.Base.{
  ℕ, zero, suc, ◌+◌, ◌-◌, ◌≤◌, ◌<◌, ◌≡◌, ◌⊎◌, inl, inr, refl, sym, ◌∙◌, subst, Option, some, List,
  [], ◌∷◌, ◌++◌, update, update_self, update_other, u8, length, length-append, arith,
}
use demo2s.Kern.Printf.{Args}
use demo2s.User.Str.{Bytes}
use demo2s.User.Printf.{Dest, buf_putc, put_end, vsnprintf}
use demo2s.User.Printf.Sent.{sent, Keeps, format_kept}

-- The characters, as bytes, are in memory from s on.
abbrev pub Holds : Bytes → ℕ → List ℕ → Type 0
Holds m s [] = Unit {0}
Holds m s (c ∷ cs) = (m s ≡ u8 c) × Holds m (s + 1) cs

pub Holds-same :
    (cs : List ℕ) (m m' : Bytes) (s : ℕ)
    → ((i : ℕ) → s ≤ i → i < s + length cs → m' i ≡ m i)
    → Holds m s cs
    → Holds m' s cs
Holds-same [] m m' s same h = tt
Holds-same (c ∷ cs) m m' s same (e, h) = (
  same s (omega arith) (omega arith) ∙ e,
  Holds-same cs m m' (s + 1) (λ i lo hi. same i (omega (arith, lo)) (omega (arith, hi))) h,
)

pub Holds-append :
    (cs ds : List ℕ) (m : Bytes) (s : ℕ)
    → Holds m s cs
    → Holds m (s + length cs) ds
    → Holds m s (cs ++ ds)
Holds-append [] ds m s h g = let z : s + 0 ≡ s = omega arith in subst (λ x. Holds m x ds) z g
Holds-append (c ∷ cs) ds m s (e, h) g =
    let z : s + suc (length cs) ≡ s + 1 + length cs = omega arith in
    (e, Holds-append cs ds m (s + 1) h (subst (λ x. Holds m x ds) z g))

-- After a call for the text `cs` from `start` on, where memory was `m0`.
module _ (lo ebuf start : ℕ) (m0 : Bytes) where
  record Follows (cs : List ℕ) (d : Dest) : Type 0 where
    low : lo ≤ d.buf
    high : d.buf ≤ ebuf
    outside : (i : ℕ) → (i < lo) ⊎ (ebuf ≤ i) → d.mem i ≡ m0 i
    place : start + length cs < ebuf → d.buf ≡ start + length cs
    held : start + length cs < ebuf → Holds d.mem start cs
    kept :
        start + length cs < ebuf → (i : ℕ) → (i < start) ⊎ (start + length cs < i) → d.mem i ≡ m0 i

-- The buffer lies from `lo` up to `ebuf`, and a call is made at `start`.
pub record Ended (lo ebuf start : ℕ) (m0 : Bytes) (cs : List ℕ) (d : Dest) : Type 0 where
  pub low : lo ≤ d.buf
  pub high : d.buf < ebuf
  pub outside : (i : ℕ) → (i < lo) ⊎ (ebuf ≤ i) → d.mem i ≡ m0 i
  pub nul : (d.mem d.buf ≡ 0) ⊎ (d.mem (ebuf - 1) ≡ 0)
  pub place : start + length cs < ebuf → d.buf ≡ start + length cs
  pub held : start + length cs < ebuf → Holds d.mem start cs
  pub closed : start + length cs < ebuf → d.mem (start + length cs) ≡ 0
  pub kept :
      start + length cs < ebuf → (i : ℕ) → (i < start) ⊎ (start + length cs < i) → d.mem i ≡ m0 i

pub putc_full :
    (ebuf c : ℕ) (d : Dest)
    → ebuf ≤ d.buf
    → buf_putc ebuf c d ≡ record d { buf = ebuf - 1; mem = update d.mem (ebuf - 1) 0 }
unfolding buf_putc
putc_full ebuf c d le = ground arith

pub putc_room :
    (ebuf c : ℕ) (d : Dest)
    → d.buf < ebuf
    → buf_putc ebuf c d ≡ record d { buf = d.buf + 1; mem = update d.mem d.buf (u8 c) }
unfolding buf_putc
putc_room ebuf c d lt = ground arith

pub length_snoc : (cs : List ℕ) (c : ℕ) → length (cs ++ c ∷ []) ≡ length cs + 1
length_snoc cs c = length-append cs (c ∷ []) ∙ (omega arith)

pub full_or_room : (b ebuf : ℕ) → b ≤ ebuf → (ebuf ≤ b) ⊎ (b < ebuf)
full_or_room b ebuf le = omega arith

module _ (lo ebuf start : ℕ) (m0 : Bytes) (two : lo + 2 ≤ ebuf) where
  put_full :
      (c : ℕ) (cs : List ℕ) (d : Dest)
      → ebuf ≤ d.buf
      → Follows lo ebuf start m0 cs d
      → Follows lo ebuf start m0
          (cs ++ c ∷ [])
          (record d { buf = ebuf - 1; mem = update d.mem (ebuf - 1) 0 })
  put_full c cs d le f =
      let n = length_snoc cs c in
      let tight : start + length cs < ebuf → ⊥ = λ lt. omega (arith, f.place lt, le, lt) in
      record {
        low = omega arith;
        high = omega arith;
        outside = λ i out.
            update_other d.mem (ebuf - 1) i 0 (λ e. omega (arith, e, out, two)) ∙ f.outside i out;
        place = λ lt. absurd (tight (omega (arith, lt, n)));
        held = λ lt. absurd (tight (omega (arith, lt, n)));
        kept = λ lt. absurd (tight (omega (arith, lt, n)));
      }

  put_room :
      (c : ℕ) (cs : List ℕ) (d : Dest)
      → d.buf < ebuf
      → Follows lo ebuf start m0 cs d
      → Follows lo ebuf start m0
          (cs ++ c ∷ [])
          (record d { buf = d.buf + 1; mem = update d.mem d.buf (u8 c) })
  put_room c cs d lt f =
      let n = length_snoc cs c in
      record {
        low = omega (arith, f.low);
        high = omega (arith, lt);
        outside = λ i out.
            update_other d.mem d.buf i (u8 c) (λ e. omega (arith, e, out, lt, f.low))
            ∙ f.outside i out;
        place = λ h. omega (arith, h, n, f.place (omega (arith, h, n)));
        held = λ h.
            let p = f.place (omega (arith, h, n)) in
            Holds-append cs (c ∷ []) (update d.mem d.buf (u8 c)) start
              (Holds-same cs d.mem (update d.mem d.buf (u8 c)) start
                (λ i lo' hi. update_other d.mem d.buf i (u8 c) (λ e. omega (arith, e, hi, p)))
                (f.held (omega (arith, h, n))))
              (
                subst (λ x. update d.mem d.buf (u8 c) x ≡ u8 c) p (update_self d.mem d.buf (u8 c)),
                tt,
              );
        kept = λ h i out.
            let p = f.place (omega (arith, h, n)) in
            update_other d.mem d.buf i (u8 c) (λ e. omega (arith, e, out, p, n))
            ∙ f.kept (omega (arith, h, n)) i (omega (arith, out, n));
      }

  put-Follows :
      (c : ℕ) (cs : List ℕ) (d : Dest)
      → Follows lo ebuf start m0 cs d
      → Follows lo ebuf start m0 (cs ++ c ∷ []) (buf_putc ebuf c d)
  put-Follows c cs d f = elim (full_or_room d.buf ebuf f.high) [
    | inl le ↦
        subst (Follows lo ebuf start m0 (cs ++ c ∷ [])) (sym (putc_full ebuf c d le))
          (put_full c cs d le f)
    | inr lt ↦
        subst (Follows lo ebuf start m0 (cs ++ c ∷ [])) (sym (putc_room ebuf c d lt))
          (put_room c cs d lt f)
  ]

  end_full :
      (cs : List ℕ) (d : Dest)
      → ebuf ≤ d.buf
      → Follows lo ebuf start m0 cs d
      → Ended lo ebuf start m0 cs (put_end ebuf d)
  unfolding put_end
  end_full cs d le f =
      let tight : start + length cs < ebuf → ⊥ = λ lt. omega (arith, f.place lt, le, lt) in
      rw (putc_full ebuf 0 d le) record {
        low = omega arith;
        high = omega arith;
        outside = λ i out.
            update_other d.mem (ebuf - 1) i 0 (λ e. omega (arith, e, out, two)) ∙ f.outside i out;
        nul = inr (update_self d.mem (ebuf - 1) 0);
        place = λ lt. absurd (tight lt);
        held = λ lt. absurd (tight lt);
        closed = λ lt. absurd (tight lt);
        kept = λ lt. absurd (tight lt);
      }

  end_room :
      (cs : List ℕ) (d : Dest)
      → d.buf < ebuf
      → Follows lo ebuf start m0 cs d
      → Ended lo ebuf start m0 cs (put_end ebuf d)
  unfolding put_end
  end_room cs d lt f =
      let back : d.buf + 1 - 1 ≡ d.buf = omega arith in
      rw (putc_room ebuf 0 d lt) record {
        low = omega (arith, f.low);
        high = omega (arith, lt);
        outside = λ i out.
            update_other d.mem d.buf i 0 (λ e. omega (arith, e, out, lt, f.low)) ∙ f.outside i out;
        nul = inl (subst (λ x. update d.mem d.buf 0 x ≡ 0) (sym back) (update_self d.mem d.buf 0));
        place = λ h. back ∙ f.place h;
        held = λ h.
            Holds-same cs d.mem (update d.mem d.buf 0) start
              (λ i lo' hi. update_other d.mem d.buf i 0 (λ e. omega (arith, e, hi, f.place h)))
              (f.held h);
        closed =
            λ h. subst (λ x. update d.mem d.buf 0 x ≡ 0) (f.place h) (update_self d.mem d.buf 0);
        kept = λ h i out.
            update_other d.mem d.buf i 0 (λ e. omega (arith, e, out, f.place h)) ∙ f.kept h i out;
      }

  end-Ended :
      (cs : List ℕ) (d : Dest)
      → Follows lo ebuf start m0 cs d
      → Ended lo ebuf start m0 cs (put_end ebuf d)
  end-Ended cs d f = elim (full_or_room d.buf ebuf f.high) [
    | inl le ↦ end_full cs d le f
    | inr lt ↦ end_room cs d lt f
  ]

  -- A nested call that ended is the text that follows.
  call-Follows :
      (t cs : List ℕ) (d d' : Dest)
      → Follows lo ebuf start m0 cs d
      → Ended lo ebuf d.buf d.mem t d'
      → Follows lo ebuf start m0 (cs ++ t) d'
  call-Follows t cs d d' f e =
      let n = length-append cs t in
      let at_call : start + length (cs ++ t) < ebuf → d.buf ≡ start + length cs =
        λ h. f.place (omega (arith, h, n)) in
      let fits : start + length (cs ++ t) < ebuf → d.buf + length t < ebuf =
        λ h. omega (arith, h, n, at_call h) in
      record {
        low = e.low;
        high = omega (arith, e.high);
        outside = λ i out. e.outside i out ∙ f.outside i out;
        place = λ h. omega (arith, e.place (fits h), at_call h, n);
        held = λ h.
            Holds-append cs t d'.mem start
              (Holds-same cs d.mem d'.mem start
                (λ i lo' hi. e.kept (fits h) i (inl (omega (arith, hi, at_call h))))
                (f.held (omega (arith, h, n))))
              (subst (λ x. Holds d'.mem x t) (at_call h) (e.held (fits h)));
        kept = λ h i out.
            e.kept (fits h) i (omega (arith, out, n, at_call h))
            ∙ f.kept (omega (arith, h, n)) i (omega (arith, out, n));
      }

  start-Follows :
      (d : Dest)
      → d.buf ≡ start
      → ((i : ℕ) → d.mem i ≡ m0 i)
      → lo ≤ start
      → start ≤ ebuf
      → Follows lo ebuf start m0 [] d
  start-Follows d b m le hi = record {
    low = omega (arith, b, le);
    high = omega (arith, b, hi);
    outside = λ i out. m i;
    place = λ h. omega (arith, b);
    held = λ h. tt;
    kept = λ h i out. m i;
  }

IsAnswered : ℕ → (List ℕ → Args → Dest → Option Dest) → (List ℕ → Args → Option (List ℕ)) → Type 0
IsAnswered ebuf deeper below =
    (lo : ℕ) (fmt : List ℕ) (va : Args) (t : List ℕ) (d : Dest)
    → lo + 2 ≤ ebuf
    → below fmt va ≡ some t
    → lo ≤ d.buf
    → d.buf ≤ ebuf
    → (d' : Dest) × (deeper fmt va d ≡ some d') × Ended lo ebuf d.buf d.mem t d'

Follows-Keeps :
    (lo ebuf start : ℕ) (m0 : Bytes) (deeper : List ℕ → Args → Dest → Option Dest)
    (below : List ℕ → Args → Option (List ℕ))
    → lo + 2 ≤ ebuf
    → IsAnswered ebuf deeper below
    → Keeps ebuf (Follows lo ebuf start m0) deeper below
unfolding IsAnswered
Follows-Keeps lo ebuf start m0 deeper below two ih = record {
  put_kept = λ c cs d f. put-Follows lo ebuf start m0 two c cs d f;
  color_kept = λ w cs d f. record {
    low = f.low;
    high = f.high;
    outside = f.outside;
    place = f.place;
    held = f.held;
    kept = f.kept;
  };
  call_kept = λ fmt va t cs d e f.
      let (d', run, ended) = ih lo fmt va t d two e f.low f.high in
      (d', run, call-Follows lo ebuf start m0 two t cs d d' f ended);
}

vsnprintf-IsAnswered : (depth ebuf : ℕ) → IsAnswered ebuf (vsnprintf depth ebuf) (sent depth)
unfolding IsAnswered vsnprintf sent
vsnprintf-IsAnswered zero ebuf lo fmt va t d two e le hi = absurd (cc)
vsnprintf-IsAnswered (suc depth) ebuf lo fmt va t d two e le hi =
    let laws =
      Follows-Keeps lo ebuf d.buf d.mem (vsnprintf depth ebuf) (sent depth) two
        (vsnprintf-IsAnswered depth ebuf) in
    let (d1, run, f) =
      format_kept ebuf (Follows lo ebuf d.buf d.mem) (vsnprintf depth ebuf) (sent depth) laws fmt va
        t d e (start-Follows lo ebuf d.buf d.mem two d refl (λ i. refl) le hi) in
    (put_end ebuf d1, rw (vsnprintf, run) refl, end-Ended lo ebuf d.buf d.mem two t d1 f)

-- `vsnprintf` returns on every format and arguments for which the source has a behaviour, calls for %e
-- and %r included, if the buffer has at least two bytes. It writes in the buffer only, its result stays
-- in it, and leaves a NUL there. Where the text and its NUL fit behind `buf`, they stand there, the
-- result is the length of the text, and no other byte has changed.
pub vsnprintf-Ended :
    (depth lo ebuf : ℕ) (fmt : List ℕ) (va : Args) (t : List ℕ) (d : Dest)
    → sent depth fmt va ≡ some t
    → lo + 2 ≤ ebuf
    → lo ≤ d.buf
    → d.buf ≤ ebuf
    → (d' : Dest) × (vsnprintf depth ebuf fmt va d ≡ some d') × Ended lo ebuf d.buf d.mem t d'
unfolding IsAnswered
vsnprintf-Ended depth lo ebuf fmt va t d e two le hi =
    vsnprintf-IsAnswered depth ebuf lo fmt va t d two e le hi
