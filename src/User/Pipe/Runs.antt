-- ===== src/User/Pipe/Runs.antt =====
-- `piperead` and `pipewrite` where nothing else runs: that they return, and where they wait for ever.
use demo2s.Base.{
  ℕ, zero, suc, ◌+◌, ◌-◌, ◌*◌, ◌≤◌, ◌<◌, ◌^◌, ◌≡◌, refl, ap, ◌∙◌, Bool, List, [], ◌∷◌, arith, leb,
  if◌then◌else◌, false, length,
}
use demo2s.User.Pipe.{
  Pipe, Reader, Writer, reading, copying, returned, writing, storing, wrote, by2pipe, is_full,
  append_byte, read_step, write_step,
}
use demo2s.User.Pipe.Queue.{IsPipe}

unfoldable pub read_run : ℕ → Bool → Pipe → Reader → Pipe × Reader
read_run zero closed p r = (p, r)
read_run (suc f) closed p r = let (p', r') = read_step closed p r in read_run f closed p' r'

unfoldable pub write_run : ℕ → Bool → Pipe → Writer → Pipe × Writer
write_run zero closed p w = (p, w)
write_run (suc f) closed p w = let (p', w') = write_step closed p w in write_run f closed p' w'

read_run-returned :
    (f : ℕ) (closed : Bool) (p : Pipe) (i : ℕ) → read_run f closed p (returned i) ≡ (p, returned i)
unfolding read_run read_step
read_run-returned zero closed p i = refl
read_run-returned (suc f) closed p i = read_run-returned f closed p i

write_run-wrote :
    (f : ℕ) (closed : Bool) (p : Pipe) (i : ℕ) → write_run f closed p (wrote i) ≡ (p, wrote i)
unfolding write_run write_step
write_run-wrote zero closed p i = refl
write_run-wrote (suc f) closed p i = write_run-wrote f closed p i

abbrev pub min : ℕ → ℕ → ℕ
min a b = if leb a b then a else b

step_last :
    (closed : Bool) (p : Pipe) (n i : ℕ)
    → min (n - i) (p.wpos - p.rpos) ≡ 0
    → i ≤ n
    → 1 ≤ i
    → read_step closed p (reading n i) ≡ (p, returned i)
unfolding read_step
step_last closed p n i e le pos = ground arith

step_test :
    (closed : Bool) (p : Pipe) (n i : ℕ)
    → i < n
    → p.rpos < p.wpos
    → read_step closed p (reading n i) ≡ (p, copying n i)
unfolding read_step
step_test closed p n i lt some_left = ground arith

step_copy :
    (closed : Bool) (p : Pipe) (n i : ℕ)
    → p.rpos + 1 < 2 ^ 32
    → read_step closed p (copying n i) ≡ (record p { rpos = p.rpos + 1 }, reading n (i + 1))
unfolding read_step
step_copy closed p n i small = ground arith

-- After i bytes, with k left to take.
read_rest :
    (k f : ℕ) (closed : Bool) (p : Pipe) (n i : ℕ)
    → p.wpos < 2 ^ 32
    → 2 * k < f
    → i ≤ n
    → min (n - i) (p.wpos - p.rpos) ≡ k
    → 1 ≤ i + k
    → read_run f closed p (reading n i) ≡ (record p { rpos = p.rpos + k }, returned (i + k))
unfolding read_run
read_rest zero zero closed p n i v h le e pos = absurd (omega arith)
read_rest zero (suc f) closed p n i v h le e pos =
    rw (step_last closed p n i e le (omega arith)) (read_run-returned f closed p i ∙ ground arith)
read_rest (suc k) zero closed p n i v h le e pos = absurd (omega arith)
read_rest (suc k) (suc zero) closed p n i v h le e pos = absurd (omega arith)
read_rest (suc k) (suc (suc f)) closed p n i v h le e pos =
    rw (step_test closed p n i (ground arith) (ground arith), step_copy closed p n i (ground arith))
      (read_rest k f closed (record p { rpos = p.rpos + 1 }) n (i + 1) v (omega arith)
          (ground arith) (ground arith) (omega arith)
        ∙ ground arith)

-- `piperead` on a pipe that is not empty returns without waiting, after at most two steps for each byte
-- and one: it takes as many bytes as there are, up to n, and moves the read position by as many.
pub piperead_returns :
    (f : ℕ) (closed : Bool) (p : Pipe) (n : ℕ)
    → IsPipe p
    → p.rpos < p.wpos
    → 1 ≤ n
    → 2 * n < f
    → read_run f closed p (reading n 0)
      ≡ (record p { rpos = p.rpos + min n (p.wpos - p.rpos) }, returned (min n (p.wpos - p.rpos)))
piperead_returns f closed p n v some_left pos enough =
    read_rest (min n (p.wpos - p.rpos)) f closed p n 0 (omega (arith, v.small)) (ground arith)
      (omega arith) (ground arith) (ground arith)
    ∙ ground arith

write_test :
    (c : ℕ) (cs : List ℕ) (closed : Bool) (p : Pipe) (i : ℕ)
    → is_full p ≡ false
    → write_step closed p (writing (c ∷ cs) i) ≡ (p, storing (c ∷ cs) i)
unfolding write_step
write_test c cs closed p i h = ground arith

write_move :
    (c : ℕ) (cs : List ℕ) (closed : Bool) (p : Pipe) (i : ℕ)
    → write_step closed p (storing (c ∷ cs) i) ≡ (append_byte c p, writing cs (i + 1))
unfolding write_step
write_move c cs closed p i = refl

write_two :
    (c : ℕ) (cs : List ℕ) (f : ℕ) (closed : Bool) (p : Pipe) (i : ℕ)
    → is_full p ≡ false
    → write_run (suc (suc f)) closed p (writing (c ∷ cs) i)
      ≡ write_run f closed (append_byte c p) (writing cs (i + 1))
unfolding write_run
write_two c cs f closed p i h = rw (test, move) refl
  where
    test : write_step closed p (writing (c ∷ cs) i) ≡ (p, storing (c ∷ cs) i)
    test = write_test c cs closed p i h

    move : write_step closed p (storing (c ∷ cs) i) ≡ (append_byte c p, writing cs (i + 1))
    move = write_move c cs closed p i

write_last :
    (f : ℕ) (closed : Bool) (p : Pipe) (i : ℕ)
    → write_run (suc f) closed p (writing [] i) ≡ (p, wrote i)
unfolding write_run write_step
write_last f closed p i = write_run-wrote f closed p i

-- A message that fits into the room that is left.
write_rest :
    (cs : List ℕ) (f : ℕ) (closed : Bool) (p : Pipe) (i : ℕ)
    → p.wpos + length cs ≤ p.rpos + by2pipe
    → p.rpos + by2pipe < 2 ^ 32
    → 2 * length cs < f
    → ((write_run f closed p (writing cs i)).1 ≡ wrote (i + length cs))
      × ((write_run f closed p (writing cs i)).0.wpos ≡ p.wpos + length cs)
      × ((write_run f closed p (writing cs i)).0.rpos ≡ p.rpos)
write_rest [] zero closed p i room small h = absurd (omega arith)
write_rest [] (suc f) closed p i room small h = rw (write_last f closed p i) (ground arith)
write_rest (c ∷ cs) zero closed p i room small h = absurd (omega arith)
write_rest (c ∷ cs) (suc zero) closed p i room small h = absurd (omega arith)
write_rest (c ∷ cs) (suc (suc f)) closed p i room small h =
    let r = write_rest cs f closed (append_byte c p) (i + 1) (omega arith) small (omega arith) in
    rw (write_two c cs f closed p i (ground arith))
      (r.0 ∙ ap wrote (omega arith), r.1 ∙ omega arith, r.2)

-- `pipewrite` of a message that fits into the pipe returns its length without waiting, after at most
-- two steps for each byte and one, and moves the write position alone.
pub pipewrite_returns :
    (cs : List ℕ) (f : ℕ) (closed : Bool) (p : Pipe)
    → p.wpos + length cs ≤ p.rpos + by2pipe
    → p.rpos + by2pipe < 2 ^ 32
    → 2 * length cs < f
    → ((write_run f closed p (writing cs 0)).1 ≡ wrote (length cs))
      × ((write_run f closed p (writing cs 0)).0.wpos ≡ p.wpos + length cs)
      × ((write_run f closed p (writing cs 0)).0.rpos ≡ p.rpos)
pipewrite_returns cs f closed p room small h =
    let r = write_rest cs f closed p 0 room small h in (r.0 ∙ ap wrote (omega arith), r.1, r.2)

read_waits :
    (n : ℕ) (p : Pipe)
    → p.rpos ≡ p.wpos
    → 1 ≤ n
    → read_step false p (reading n 0) ≡ (p, reading n 0)
unfolding read_step
read_waits n p same pos = ground arith

write_waits :
    (c : ℕ) (cs : List ℕ) (i : ℕ) (p : Pipe)
    → p.rpos ≡ p.wpos
    → 2 ^ 32 ≤ p.rpos + by2pipe
    → p.rpos < 2 ^ 32
    → write_step false p (writing (c ∷ cs) i) ≡ (p, writing (c ∷ cs) i)
unfolding write_step
write_waits c cs i p same late word = ground arith

-- When 2^32 - 32 bytes or more have gone through and all were read, the pipe is empty and full at once,
-- since the sum of the read position and 32 wraps: an open pipe then keeps the reader and the writer
-- waiting for ever.
pub pipe_stuck :
    (f g n c i : ℕ) (cs : List ℕ) (p : Pipe)
    → p.rpos ≡ p.wpos
    → 2 ^ 32 ≤ p.rpos + by2pipe
    → p.rpos < 2 ^ 32
    → 1 ≤ n
    → (read_run f false p (reading n 0) ≡ (p, reading n 0))
      × (write_run g false p (writing (c ∷ cs) i) ≡ (p, writing (c ∷ cs) i))
unfolding read_run write_run
pipe_stuck f g n c i cs p same late word pos = (reader f, writer g)
  where
    reader : (m : ℕ) → read_run m false p (reading n 0) ≡ (p, reading n 0)
    reader zero = refl
    reader (suc m) = rw (read_waits n p same pos) (reader m)

    writer : (m : ℕ) → write_run m false p (writing (c ∷ cs) i) ≡ (p, writing (c ∷ cs) i)
    writer zero = refl
    writer (suc m) = rw (write_waits c cs i p same late word) (writer m)
