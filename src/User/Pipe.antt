-- ===== src/User/Pipe.antt =====
-- user/pipe.c: a pipe's shared page, and the loops of `piperead` and `pipewrite` as processes that run
-- interleaved. The loops test the positions and then move a byte; each of the two is a step, and
-- between any two steps another environment may run, at a `sys_yield` or at a clock interrupt.
pub mod Queue
pub mod System
pub mod Runs
use demo2s.Base.{
  ℕ, zero, suc, ◌+◌, ◌-◌, ◌%◌, ◌^◌, Bool, true, false, List, [], ◌∷◌, ◌==◌, leb, if◌then◌else◌,
  update, u8, u32,
}

abbrev pub by2pipe : ℕ
by2pipe = 32

-- struct Pipe
pub record Pipe : Type 0 where
  pub rpos : ℕ
  pub wpos : ℕ
  pub buf : ℕ → ℕ

-- `p->p_rpos >= p->p_wpos` and `p->p_rpos+BY2PIPE <= p->p_wpos`, on 32-bit words
abbrev pub is_empty : Pipe → Bool
is_empty p = leb p.wpos p.rpos

abbrev pub is_full : Pipe → Bool
is_full p = leb (u32 (p.rpos + by2pipe)) p.wpos

-- `p->p_buf[p->p_rpos++%BY2PIPE]`
abbrev pub next_byte : Pipe → ℕ
next_byte p = p.buf (p.rpos % by2pipe)

abbrev pub advance : Pipe → Pipe
advance p = record p { rpos = u32 (p.rpos + 1) }

-- `p->p_buf[p->p_wpos++%BY2PIPE]=c`
abbrev pub append_byte : ℕ → Pipe → Pipe
append_byte c p = record p { buf = update p.buf (p.wpos % by2pipe) (u8 c); wpos = u32 (p.wpos + 1) }

-- Where `piperead` stands in its loop: before a test with i of n bytes copied, past a test that found a
-- byte, or returned with a count.
pub data Reader : Type 0 where
  reading : (n i : ℕ) → Reader
  copying : (n i : ℕ) → Reader
  returned : ℕ → Reader

-- Where `pipewrite` stands: the same, with the bytes that are still to be written.
pub data Writer : Type 0 where
  writing : List ℕ → ℕ → Writer
  storing : List ℕ → ℕ → Writer
  wrote : ℕ → Writer

-- One step of `piperead`. `closed` is what `_pipeisclosed` answers, where it is asked. The `sys_yield` of
-- an empty pipe leaves the loop where it is.
unfoldable pub read_step : Bool → Pipe → Reader → Pipe × Reader
read_step closed p (reading n i) =
    if i == n
    then (p, returned i)
    else if is_empty p
    then (p, (if closed then returned i else if i == 0 then reading n i else returned i))
    else (p, copying n i)
read_step closed p (copying n i) = (advance p, reading n (i + 1))
read_step closed p (returned i) = (p, returned i)

-- One step of `pipewrite`, which returns 0 where the other end is closed.
unfoldable pub write_step : Bool → Pipe → Writer → Pipe × Writer
write_step closed p (writing [] i) = (p, wrote i)
write_step closed p (writing (c ∷ cs) i) =
    if is_full p
    then (p, (if closed then wrote 0 else writing (c ∷ cs) i))
    else (p, storing (c ∷ cs) i)
write_step closed p (storing [] i) = (p, wrote i)
write_step closed p (storing (c ∷ cs) i) = (append_byte c p, writing cs (i + 1))
write_step closed p (wrote i) = (p, wrote i)

-- The stat of a pipe: `p->p_wpos - p->p_rpos` on 32-bit words.
unfoldable pub pipestat_size : Pipe → ℕ
pipestat_size p = u32 (p.wpos + 2 ^ 32 - p.rpos)
