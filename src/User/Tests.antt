-- ===== src/User/Tests.antt =====
-- The properties of pipes at concrete pipes.
pub mod Descriptors
pub mod Messages
pub mod Programs
pub mod Lines
pub mod Forking
pub mod Files
use demo2s.Base.{◌+◌, ◌≤◌, ◌≡◌, refl, false, [], ◌∷◌, ◌++◌, arith}
use demo2s.User.Pipe.{Pipe, by2pipe, reading, returned, writing, read_step, write_step}
use demo2s.User.Pipe.Queue.{IsPipe, contents}
use demo2s.User.Pipe.System.{
  System, read, write, read_again, write_again, start, Reach, here, next, queue_in_order,
  reader_moves, writer_moves,
}
use demo2s.User.Pipe.Runs.{read_run, write_run, piperead_returns, pipe_stuck}

-- The writer has put 65 into the pipe and has 66 left; the reader has taken 65 out.
abbrev asked : System
asked = record (start (λ _. 0)) { writer = writing (65 ∷ 66 ∷ []) 0 }

abbrev one_sent : System
one_sent = writer_moves false (writer_moves false asked)

abbrev one_read : System
one_read = reader_moves false (reader_moves false (record one_sent { reader = reading 4 0 }))

one_read-IsReached : Reach (λ _. 0) one_read
one_read-IsReached =
    next
      (next
        (next
          (next (next (next here (write_again (65 ∷ 66 ∷ []) 0 refl)) (write false)) (write false))
          (read_again 4 0 refl))
        (read false))
      (read false)

queue_in_order_example :
    (one_read.received ++ contents (one_read.pipe) ≡ one_read.sent)
    × (one_read.pipe.wpos ≤ one_read.pipe.rpos + by2pipe)
unfolding read_step write_step
queue_in_order_example = queue_in_order one_read-IsReached (omega arith)

abbrev half : Pipe
half = record { rpos = 3; wpos = 5; buf = λ i. i }

half-IsPipe : IsPipe half
half-IsPipe = record { ordered = omega arith; bounded = omega arith; small = omega arith }

piperead_returns_example :
    read_run 20 false half (reading 8 0) ≡ (record half { rpos = 5 }, returned 2)
piperead_returns_example =
    piperead_returns 20 false half 8 half-IsPipe (omega arith) (omega arith) (omega arith)

-- A pipe that is drained after 2^32 - 4 bytes.
abbrev old : Pipe
old = record { rpos = 4294967292; wpos = 4294967292; buf = λ i. i }

pipe_stuck_example :
    (read_run 3 false old (reading 1 0) ≡ (old, reading 1 0))
    × (write_run 4 false old (writing (7 ∷ []) 0) ≡ (old, writing (7 ∷ []) 0))
pipe_stuck_example = pipe_stuck 3 4 1 7 0 [] old refl (omega arith) (omega arith) (omega arith)
