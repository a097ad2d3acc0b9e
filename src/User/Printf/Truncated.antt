-- ===== src/User/Printf/Truncated.antt =====
-- `vsnprintf` of user/printf.c on a text that is longer than the buffer. Once the buffer is full, every
-- second character takes the last place, until a NUL replaces it.
use demo2s.Base.{
  ℕ, zero, suc, ◌+◌, ◌-◌, ◌^◌, ◌≤◌, ◌<◌, ◌≡◌, ◌≢◌, ◌⊎◌, inl, inr, refl, sym, ◌∙◌, subst, some, List,
  [], ◌∷◌, ◌++◌, update, update_self, update_other, u8, length, arith,
}
use demo2s.Kern.Printf.{Args}
use demo2s.User.Str.{Bytes}
use demo2s.User.Str.Laws.{HasString}
use demo2s.User.Printf.{Dest, buf_putc, put_end, vsnprintf}
use demo2s.User.Printf.Sent.{sent, Keeps, format_kept}
use demo2s.User.Printf.Content.{
  Holds, Holds-same, Holds-append, putc_full, putc_room, full_or_room, length_snoc,
}

abbrev pub take : ℕ → List ℕ → List ℕ
take zero cs = []
take (suc n) [] = []
take (suc n) (c ∷ cs) = c ∷ take n cs

length-take-le : (n : ℕ) (cs : List ℕ) → length (take n cs) ≤ n
length-take-le zero cs = omega arith
length-take-le (suc n) [] = omega arith
length-take-le (suc n) (c ∷ cs) = omega (arith, length-take-le n cs)

length-take_long : (n : ℕ) (cs : List ℕ) → n ≤ length cs → length (take n cs) ≡ n
length-take_long zero cs le = refl
length-take_long (suc n) [] le = absurd (omega (arith, le))
length-take_long (suc n) (c ∷ cs) le = omega (arith, length-take_long n cs (omega (arith, le)))

pub take_short : (n : ℕ) (cs : List ℕ) → length cs ≤ n → take n cs ≡ cs
take_short zero [] le = refl
take_short zero (c ∷ cs) le = absurd (omega (arith, le))
take_short (suc n) [] le = refl
take_short (suc n) (c ∷ cs) le = rw (take_short n cs (omega (arith, le))) refl

take_snoc : (n : ℕ) (cs : List ℕ) (c : ℕ) → n ≤ length cs → take n (cs ++ c ∷ []) ≡ take n cs
take_snoc zero cs c le = refl
take_snoc (suc n) [] c le = absurd (omega (arith, le))
take_snoc (suc n) (d ∷ cs) c le = rw (take_snoc n cs c (omega (arith, le))) refl

take_nothing : (n : ℕ) (m : Bytes) (s : ℕ) → Holds m s (take n [])
take_nothing zero m s = tt
take_nothing (suc n) m s = tt

-- A buffer of k + 1 bytes at `start`, where memory was `m0`.
module _ (k start : ℕ) (m0 : Bytes) where
  record Fills (cs : List ℕ) (d : Dest) : Type 0 where
    high : d.buf ≤ start + suc k
    outside : (i : ℕ) → (i < start) ⊎ (start + suc k ≤ i) → d.mem i ≡ m0 i
    place :
        ((length cs ≤ k) × (d.buf ≡ start + length cs)) ⊎ ((k < length cs) × (start + k ≤ d.buf))
    held : Holds d.mem start (take k cs)

  fill_full :
      (c : ℕ) (cs : List ℕ) (d : Dest)
      → start + suc k ≤ d.buf
      → Fills cs d
      → Fills
          (cs ++ c ∷ [])
          (record d { buf = start + suc k - 1; mem = update d.mem (start + suc k - 1) 0 })
  fill_full c cs d le f =
      let n = length_snoc cs c in
      let long : k < length cs = omega (arith, f.place, le) in
      let m' = update d.mem (start + suc k - 1) 0 in
      record {
        high = omega arith;
        outside = λ i out.
            update_other d.mem (start + suc k - 1) i 0 (λ e. omega (arith, e, out))
            ∙ f.outside i out;
        place = omega (arith, n, long);
        held = subst (Holds m' start) (sym (take_snoc k cs c (omega (arith, long)))) (
            Holds-same (take k cs) d.mem m' start
              (λ i lo hi.
                update_other d.mem (start + suc k - 1) i 0
                  (λ e. omega (arith, e, hi, length-take-le k cs)))
              f.held);
      }

  fill_held :
      (c : ℕ) (cs : List ℕ) (d : Dest)
      → d.buf < start + suc k
      → Fills cs d
      → (k ≤ length cs) ⊎ (length cs < k)
      → Holds (update d.mem d.buf (u8 c)) start (take k (cs ++ c ∷ []))
  fill_held c cs d lt f (inl long) =
      let here : start + k ≤ d.buf = omega (arith, f.place, long) in
      subst (Holds (update d.mem d.buf (u8 c)) start) (sym (take_snoc k cs c long)) (
        Holds-same (take k cs) d.mem (update d.mem d.buf (u8 c)) start
          (λ i lo hi.
            update_other d.mem d.buf i (u8 c)
              (λ e. omega (arith, e, hi, here, length-take-le k cs)))
          f.held)
  fill_held c cs d lt f (inr short) =
      let n = length_snoc cs c in
      let p : d.buf ≡ start + length cs = omega (arith, short, f.place) in
      subst (Holds (update d.mem d.buf (u8 c)) start)
        (sym (take_short k (cs ++ c ∷ []) (omega (arith, n, short))))
        (Holds-append cs (c ∷ []) (update d.mem d.buf (u8 c)) start
          (Holds-same cs d.mem (update d.mem d.buf (u8 c)) start
            (λ i lo hi. update_other d.mem d.buf i (u8 c) (λ e. omega (arith, e, hi, p)))
            (subst (Holds d.mem start) (take_short k cs (omega (arith, short))) f.held))
          (subst (λ x. update d.mem d.buf (u8 c) x ≡ u8 c) p (update_self d.mem d.buf (u8 c)), tt))

  fill_room :
      (c : ℕ) (cs : List ℕ) (d : Dest)
      → d.buf < start + suc k
      → Fills cs d
      → Fills (cs ++ c ∷ []) (record d { buf = d.buf + 1; mem = update d.mem d.buf (u8 c) })
  fill_room c cs d lt f =
      let n = length_snoc cs c in
      let low : start ≤ d.buf = omega (arith, f.place) in
      record {
        high = omega (arith, lt);
        outside = λ i out.
            update_other d.mem d.buf i (u8 c) (λ e. omega (arith, e, out, lt, low))
            ∙ f.outside i out;
        place = omega (arith, n, f.place);
        held = fill_held c cs d lt f (omega arith);
      }

  put-Fills :
      (c : ℕ) (cs : List ℕ) (d : Dest)
      → Fills cs d
      → Fills (cs ++ c ∷ []) (buf_putc (start + suc k) c d)
  put-Fills c cs d f = elim (full_or_room d.buf (start + suc k) f.high) [
    | inl le ↦
        subst (Fills (cs ++ c ∷ [])) (sym (putc_full (start + suc k) c d le))
          (fill_full c cs d le f)
    | inr lt ↦
        subst (Fills (cs ++ c ∷ [])) (sym (putc_room (start + suc k) c d lt))
          (fill_room c cs d lt f)
  ]

  start-Fills : (d : Dest) → d.buf ≡ start → ((i : ℕ) → d.mem i ≡ m0 i) → Fills [] d
  start-Fills d b m = record {
    high = omega (arith, b);
    outside = λ i out. m i;
    place = omega (arith, b);
    held = take_nothing k d.mem start;
  }

  -- The NUL that ends the call stands after what is left of the text.
  record Cut (cs : List ℕ) (d : Dest) : Type 0 where
    outside : (i : ℕ) → (i < start) ⊎ (start + suc k ≤ i) → d.mem i ≡ m0 i
    held : Holds d.mem start (take k cs)
    closed : d.mem (start + length (take k cs)) ≡ 0
    place :
        ((length cs ≤ k) × (d.buf ≡ start + length cs))
        ⊎ ((k < length cs) × (d.buf ≤ start + k) × (start + k ≤ d.buf + 1))

  closed_by :
      (cs : List ℕ) (d : Dest) (i : ℕ)
      → Fills cs d
      → i ≡ start + length (take k cs)
      → (d' : Dest) → ((j : ℕ) → d'.mem j ≡ update d.mem i 0 j)
      → ((length cs ≤ k) × (d'.buf ≡ start + length cs))
        ⊎ ((k < length cs) × (d'.buf ≤ start + k) × (start + k ≤ d'.buf + 1))
      → Cut cs d'
  closed_by cs d i f e d' m p =
      let le = length-take-le k cs in
      record {
        outside = λ j out.
            m j ∙ update_other d.mem i j 0 (λ z. omega (arith, z, out, e, le)) ∙ f.outside j out;
        held =
            Holds-same (take k cs) d.mem d'.mem start
              (λ j lo hi. m j ∙ update_other d.mem i j 0 (λ z. omega (arith, z, hi, e))) f.held;
        closed = subst (λ x. d'.mem x ≡ 0) e (m i ∙ update_self d.mem i 0);
        place = p;
      }

  end-Cut : (cs : List ℕ) (d : Dest) → Fills cs d → Cut cs (put_end (start + suc k) d)
  unfolding put_end
  end-Cut cs d f = elim (full_or_room d.buf (start + suc k) f.high) [
    | inl le ↦
        let long : k < length cs = omega (arith, f.place, le) in
        let n = length-take_long k cs (omega (arith, long)) in
        rw (putc_full (start + suc k) 0 d le) (
          closed_by cs d (start + suc k - 1) f (omega (arith, n)) _ (λ j. refl)
            (omega (arith, long)))
    | inr lt ↦ rw (putc_room (start + suc k) 0 d lt) (
        closed_by cs d d.buf f (end_place cs d lt f (omega arith)) _ (λ j. refl)
          (omega (arith, f.place, lt)))
  ]
    where
      end_place :
          (cs : List ℕ) (d : Dest)
          → d.buf < start + suc k
          → Fills cs d
          → (length cs ≤ k) ⊎ (k < length cs)
          → d.buf ≡ start + length (take k cs)
      end_place cs d lt f (inl le) = let t = take_short k cs le in rw t (omega (arith, f.place, le))
      end_place cs d lt f (inr long) =
          omega (arith, f.place, lt, long, length-take_long k cs (omega (arith, long)))

-- A format whose text needs no call of `snprintf` or `vsnprintf` besides this one.
fill-Keeps :
    (depth k start : ℕ) (m0 : Bytes)
    → Keeps (start + suc k) (Fills k start m0) (vsnprintf depth (start + suc k)) (sent 0)
unfolding sent
fill-Keeps depth k start m0 = record {
  put_kept = λ c cs d f. put-Fills k start m0 c cs d f;
  color_kept =
      λ w cs d f. record { high = f.high; outside = f.outside; place = f.place; held = f.held };
  call_kept = λ fmt va t cs d e f. absurd (cc);
}

abbrev pub IsText : List ℕ → Type 0
IsText [] = Unit {0}
IsText (c ∷ cs) = (c ≢ 0) × (c < 2 ^ 8) × IsText cs

take-IsText : (n : ℕ) (cs : List ℕ) → IsText cs → IsText (take n cs)
take-IsText zero cs h = tt
take-IsText (suc n) [] h = tt
take-IsText (suc n) (c ∷ cs) (ne, lt, h) = (ne, lt, take-IsText n cs h)

pub Holds-HasString :
    (cs : List ℕ) (m : Bytes) (s : ℕ)
    → IsText cs
    → Holds m s cs
    → m (s + length cs) ≡ 0
    → HasString m s cs
unfolding HasString
Holds-HasString [] m s x h z = let e : s + 0 ≡ s = omega arith in subst (λ i. m i ≡ 0) e z
Holds-HasString (c ∷ cs) m s (ne, lt, x) (e, h) z =
    let small : u8 c ≡ c = omega (arith, lt) in
    let i : s + suc (length cs) ≡ s + 1 + length cs = omega arith in
    (e ∙ small, ne, Holds-HasString cs m (s + 1) x h (subst (λ j. m j ≡ 0) i z))

-- A format without %e and %r leaves, in a buffer of k + 1 bytes, the string of the first k characters of
-- its text, whatever is the length of the text, and changes no byte outside the buffer. The result is the
-- number of characters of the text if they fit, and k or one less if they do not.
pub vsnprintf-take :
    (depth k : ℕ) (fmt : List ℕ) (va : Args) (t : List ℕ) (d : Dest)
    → sent 1 fmt va ≡ some t
    → IsText t
    → (d' : Dest) × (vsnprintf (suc depth) (d.buf + suc k) fmt va d ≡ some d')
      × HasString d'.mem d.buf (take k t)
      × ((i : ℕ) → (i < d.buf) ⊎ (d.buf + suc k ≤ i) → d'.mem i ≡ d.mem i)
      × (((length t ≤ k) × (d'.buf ≡ d.buf + length t))
          ⊎ ((k < length t) × (d'.buf ≤ d.buf + k) × (d.buf + k ≤ d'.buf + 1)))
unfolding vsnprintf sent
vsnprintf-take depth k fmt va t d e x =
    let (d1, run, f) =
      format_kept (d.buf + suc k) (Fills k d.buf d.mem) (vsnprintf depth (d.buf + suc k)) (sent 0)
        (fill-Keeps depth k d.buf d.mem) fmt va t d e
        (start-Fills k d.buf d.mem d refl (λ i. refl)) in
    let cut = end-Cut k d.buf d.mem t d1 f in
    (
      put_end (d.buf + suc k) d1,
      rw (vsnprintf, run) refl,
      Holds-HasString (take k t) _ d.buf (take-IsText k t x) cut.held cut.closed,
      cut.outside,
      cut.place,
    )
