-- ===== src/User/Pipe/Queue.antt =====
-- A pipe as the queue of the bytes that wait in it.
use demo2s.Base.{
  ℕ, zero, suc, ◌+◌, ◌-◌, ◌%◌, ◌≤◌, ◌<◌, ◌^◌, ◌≡◌, ap, ◌∙◌, List, [], ◌∷◌, ◌++◌, arith, update, u32,
  u8,
}
use demo2s.User.Pipe.{Pipe, by2pipe, advance, append_byte, next_byte}

-- The n bytes from position r on.
abbrev pub window : (ℕ → ℕ) → ℕ → ℕ → List ℕ
window buf r zero = []
window buf r (suc n) = buf (r % by2pipe) ∷ window buf (r + 1) n

abbrev pub contents : Pipe → List ℕ
contents p = window p.buf p.rpos (p.wpos - p.rpos)

-- The positions are those of fewer bytes than a word counts, at most 32 apart.
pub record IsPipe (p : Pipe) : Type 0 where
  pub ordered : p.rpos ≤ p.wpos
  pub bounded : p.wpos ≤ p.rpos + by2pipe
  pub small : p.wpos + by2pipe < 2 ^ 32

window-store :
    (buf : ℕ → ℕ) (c n r w : ℕ)
    → n < by2pipe
    → w ≡ (r + n) % by2pipe
    → window (update buf w c) r (suc n) ≡ window buf r n ++ c ∷ []
window-store buf c zero r w h e = ground arith
window-store buf c (suc n) r w h e = ground (arith, window-store buf c n (r + 1) w)

-- A byte stored in a pipe that is not full comes last.
pub contents-append_byte :
    (c : ℕ) (p : Pipe)
    → IsPipe p
    → p.wpos < p.rpos + by2pipe
    → p.wpos + 1 + by2pipe < 2 ^ 32
    → contents (append_byte c p) ≡ contents p ++ u8 c ∷ []
contents-append_byte c p v room few =
    ap (window (append_byte c p).buf p.rpos) len
    ∙ window-store p.buf (u8 c) (p.wpos - p.rpos) p.rpos (p.wpos % by2pipe)
        (omega (arith, v.ordered)) place
  where
    len : u32 (p.wpos + 1) - p.rpos ≡ suc (p.wpos - p.rpos)
    len = omega (arith, v.ordered)

    place : p.wpos % by2pipe ≡ (p.rpos + (p.wpos - p.rpos)) % by2pipe
    place = ap (λ t. t % by2pipe) (omega (arith, v.ordered))

-- A pipe that is not empty holds the next byte, and what is left without it.
pub contents-advance :
    (p : Pipe) → IsPipe p → p.rpos < p.wpos → contents p ≡ next_byte p ∷ contents (advance p)
contents-advance p v some_left =
    ap (window p.buf p.rpos) len ∙ ap (λ t. next_byte p ∷ t) (rest ∙ start)
  where
    len : p.wpos - p.rpos ≡ suc (p.wpos - (p.rpos + 1))
    len = omega arith

    step : p.rpos + 1 ≡ u32 (p.rpos + 1)
    step = omega (arith, v.small)

    rest :
        window p.buf (p.rpos + 1) (p.wpos - (p.rpos + 1))
        ≡ window p.buf (p.rpos + 1) (p.wpos - u32 (p.rpos + 1))
    rest = ap (λ t. window p.buf (p.rpos + 1) (p.wpos - t)) step

    start :
        window p.buf (p.rpos + 1) (p.wpos - u32 (p.rpos + 1))
        ≡ window p.buf (u32 (p.rpos + 1)) (p.wpos - u32 (p.rpos + 1))
    start = ap (λ t. window p.buf t (p.wpos - u32 (p.rpos + 1))) step
