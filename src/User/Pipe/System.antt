-- ===== src/User/Pipe/System.antt =====
-- A reader and a writer of one pipe, interleaved in any way.
use demo2s.Base.{
  ℕ, ◌+◌, ◌≤◌, ◌<◌, ◌^◌, ◌≡◌, refl, ap, sym, ◌∙◌, Bool, Bool-cases, inl, inr, List, [], ◌∷◌, ◌++◌,
  arith, ◌==◌, if◌then◌else◌, true, false, u8, length, length-append,
}
use mathlib.Core.List.{append_assoc, append-nil}
use demo2s.User.Pipe.{
  Pipe, Reader, Writer, reading, copying, returned, writing, storing, wrote, by2pipe, is_empty,
  is_full, advance, append_byte, next_byte, read_step, write_step,
}
use demo2s.User.Pipe.Queue.{contents, IsPipe, contents-append_byte, contents-advance}

-- The pipe, the two processes, and, to speak of them, the bytes that went in and came out so far.
pub record System : Type 0 where
  pub pipe : Pipe
  pub reader : Reader
  pub writer : Writer
  pub sent : List ℕ
  pub received : List ℕ

abbrev pub came_out : Pipe → Reader → List ℕ
came_out p (reading n i) = []
came_out p (copying n i) = next_byte p ∷ []
came_out p (returned i) = []

abbrev pub went_in : Writer → List ℕ
went_in (writing cs i) = []
went_in (storing [] i) = []
went_in (storing (c ∷ cs) i) = u8 c ∷ []
went_in (wrote i) = []

abbrev pub reader_moves : Bool → System → System
reader_moves closed s =
    let (p, r) = read_step closed s.pipe s.reader in
    record s { pipe = p; reader = r; received = s.received ++ came_out s.pipe s.reader }

abbrev pub writer_moves : Bool → System → System
writer_moves closed s =
    let (p, w) = write_step closed s.pipe s.writer in
    record s { pipe = p; writer = w; sent = s.sent ++ went_in s.writer }

-- Either process takes a step, or calls again once it has returned. `_pipeisclosed` may answer anything.
pub data Step (s : System) : System → Type 0 where
  read : (closed : Bool) → Step s (reader_moves closed s)
  write : (closed : Bool) → Step s (writer_moves closed s)
  read_again : (n i : ℕ) → s.reader ≡ returned i → Step s (record s { reader = reading n 0 })
  write_again :
      (cs : List ℕ) (i : ℕ) → s.writer ≡ wrote i → Step s (record s { writer = writing cs 0 })

abbrev pub start : (ℕ → ℕ) → System
start buf = record {
  pipe = record { rpos = 0; wpos = 0; buf = buf };
  reader = returned 0;
  writer = wrote 0;
  sent = [];
  received = [];
}

pub data Reach (buf : ℕ → ℕ) : System → Type 0 where
  here : Reach buf (start buf)
  next : {s t : System} → Reach buf s → Step s t → Reach buf t

-- Past its test, the reader has a byte to take and the writer room for one.
abbrev has_byte : Reader → Bool
has_byte (reading n i) = false
has_byte (copying n i) = true
has_byte (returned i) = false

abbrev has_room : Writer → Bool
has_room (writing cs i) = false
has_room (storing [] i) = false
has_room (storing (c ∷ cs) i) = true
has_room (wrote i) = false

pub record IsFifo (s : System) : Type 0 where
  pub counted : s.pipe.wpos ≡ length s.sent
  pub pipe_ok : IsPipe s.pipe
  pub byte : has_byte s.reader ≡ true → s.pipe.rpos < s.pipe.wpos
  pub room : has_room s.writer ≡ true → s.pipe.wpos < s.pipe.rpos + by2pipe
  pub order : s.received ++ contents s.pipe ≡ s.sent

take_IsFifo :
    (p : Pipe) (n i : ℕ) (w : Writer) (sent received : List ℕ)
    → IsFifo
        (record { pipe = p; reader = copying n i; writer = w; sent = sent; received = received })
    → IsFifo (record {
      pipe = advance p;
      reader = reading n (i + 1);
      writer = w;
      sent = sent;
      received = received ++ next_byte p ∷ [];
    })
take_IsFifo p n i w sent received v = record {
  counted = v.counted;
  pipe_ok = record {
    ordered = omega (arith, v.byte refl);
    bounded = omega (arith, v.byte refl, v.pipe_ok.bounded, v.pipe_ok.small);
    small = v.pipe_ok.small;
  };
  byte = λ h. cc;
  room = λ h. omega (arith, v.room h, v.byte refl, v.pipe_ok.small);
  order =
      append_assoc received (next_byte p ∷ []) (contents (advance p))
      ∙ ap (λ t. received ++ t) (sym (contents-advance p v.pipe_ok (v.byte refl)))
      ∙ v.order;
}

store_IsFifo :
    (p : Pipe) (r : Reader) (c : ℕ) (cs : List ℕ) (i : ℕ) (sent received : List ℕ)
    → IsFifo (record {
      pipe = p;
      reader = r;
      writer = storing (c ∷ cs) i;
      sent = sent;
      received = received;
    })
    → length sent + 1 + by2pipe < 2 ^ 32
    → IsFifo (record {
      pipe = append_byte c p;
      reader = r;
      writer = writing cs (i + 1);
      sent = sent ++ u8 c ∷ [];
      received = received;
    })
store_IsFifo p r c cs i sent received v few = record {
  counted = omega (arith, v.counted, length-append {0} sent (u8 c ∷ []));
  pipe_ok = record {
    ordered = omega (arith, v.counted, v.pipe_ok.ordered);
    bounded = omega (arith, v.counted, v.room refl);
    small = omega (arith, v.counted);
  };
  byte = λ h. omega (arith, v.counted, v.byte h);
  room = λ h. cc;
  order =
      ap (λ t. received ++ t)
        (contents-append_byte c p v.pipe_ok (v.room refl) (omega (arith, v.counted)))
      ∙ sym (append_assoc received (contents p) (u8 c ∷ []))
      ∙ ap (λ t. t ++ u8 c ∷ []) v.order;
}

-- A process that has moved no byte.
other_reader :
    (p : Pipe) (r r' : Reader) (w : Writer) (sent received : List ℕ)
    → (has_byte r' ≡ true → p.rpos < p.wpos)
    → IsFifo (record { pipe = p; reader = r; writer = w; sent = sent; received = received })
    → IsFifo (record { pipe = p; reader = r'; writer = w; sent = sent; received = received ++ [] })
other_reader p r r' w sent received h v = record {
  counted = v.counted;
  pipe_ok = v.pipe_ok;
  byte = h;
  room = v.room;
  order = ap (λ t. t ++ contents p) (append-nil received) ∙ v.order;
}

other_writer :
    (p : Pipe) (r : Reader) (w w' : Writer) (sent received : List ℕ)
    → (has_room w' ≡ true → p.wpos < p.rpos + by2pipe)
    → IsFifo (record { pipe = p; reader = r; writer = w; sent = sent; received = received })
    → IsFifo (record { pipe = p; reader = r; writer = w'; sent = sent ++ []; received = received })
other_writer p r w w' sent received h v = record {
  counted = v.counted ∙ ap length (sym (append-nil sent));
  pipe_ok = v.pipe_ok;
  byte = v.byte;
  room = h;
  order = v.order ∙ sym (append-nil sent);
}

read_IsFifo :
    (closed : Bool) (p : Pipe) (r : Reader) (w : Writer) (sent received : List ℕ)
    → IsFifo (record { pipe = p; reader = r; writer = w; sent = sent; received = received })
    → IsFifo (
        reader_moves closed
          (record { pipe = p; reader = r; writer = w; sent = sent; received = received }))
unfolding read_step
read_IsFifo closed p (reading n i) w sent received v = elim (Bool-cases (i == n)) [
  | inl e ↦ rw e (other_reader p (reading n i) (returned i) w sent received (λ h. cc) v)
  | inr e ↦ elim (Bool-cases (is_empty p)) [
    | inl z ↦
        rw (e, z)
          (other_reader p (reading n i) (waits closed (i == 0)) w sent received
            (none_waits closed (i == 0)) v)
    | inr z ↦
        rw (e, z) (other_reader p (reading n i) (copying n i) w sent received (λ h. ground arith) v)
  ]
]
  where
    waits : Bool → Bool → Reader
    waits c z = if c then returned i else if z then reading n i else returned i

    none_waits : (c z : Bool) → has_byte (waits c z) ≡ true → p.rpos < p.wpos
    none_waits true z h = cc
    none_waits false true h = cc
    none_waits false false h = cc
read_IsFifo closed p (copying n i) w sent received v = take_IsFifo p n i w sent received v
read_IsFifo closed p (returned i) w sent received v =
    other_reader p (returned i) (returned i) w sent received (λ h. cc) v

write_IsFifo :
    (closed : Bool) (p : Pipe) (r : Reader) (w : Writer) (sent received : List ℕ)
    → length (sent ++ went_in w) + by2pipe < 2 ^ 32
    → IsFifo (record { pipe = p; reader = r; writer = w; sent = sent; received = received })
    → IsFifo (
        writer_moves closed
          (record { pipe = p; reader = r; writer = w; sent = sent; received = received }))
unfolding write_step
write_IsFifo closed p r (writing [] i) sent received few v =
    other_writer p r (writing [] i) (wrote i) sent received (λ h. cc) v
write_IsFifo closed p r (writing (c ∷ cs) i) sent received few v = elim (Bool-cases (is_full p)) [
  | inl z ↦
      rw z
        (other_writer p r (writing (c ∷ cs) i) (waits closed) sent received (none_waits closed) v)
  | inr z ↦ rw z (
      other_writer p r (writing (c ∷ cs) i) (storing (c ∷ cs) i) sent received
        (λ h. ground (arith, v.pipe_ok.small, v.pipe_ok.ordered)) v)
]
  where
    waits : Bool → Writer
    waits b = if b then wrote 0 else writing (c ∷ cs) i

    none_waits : (b : Bool) → has_room (waits b) ≡ true → p.wpos < p.rpos + by2pipe
    none_waits true h = cc
    none_waits false h = cc
write_IsFifo closed p r (storing [] i) sent received few v =
    other_writer p r (storing [] i) (wrote i) sent received (λ h. cc) v
write_IsFifo closed p r (storing (c ∷ cs) i) sent received few v =
    store_IsFifo p r c cs i sent received v (omega (arith, length-append {0} sent (u8 c ∷ [])))
write_IsFifo closed p r (wrote i) sent received few v =
    other_writer p r (wrote i) (wrote i) sent received (λ h. cc) v

-- What went in only grows.
Step-sent : {s t : System} → Step s t → length s.sent ≤ length t.sent
Step-sent {s} (read closed) = omega arith
Step-sent {s} (write closed) = omega (arith, length-append {0} s.sent (went_in s.writer))
Step-sent {s} (read_again n i e) = omega arith
Step-sent {s} (write_again cs i e) = omega arith

Step-IsFifo : {s t : System} → Step s t → length t.sent + by2pipe < 2 ^ 32 → IsFifo s → IsFifo t
Step-IsFifo {s} (read closed) few v =
    read_IsFifo closed s.pipe s.reader s.writer s.sent s.received v
Step-IsFifo {s} (write closed) few v =
    write_IsFifo closed s.pipe s.reader s.writer s.sent s.received few v
Step-IsFifo {s} (read_again n i e) few v = record {
  counted = v.counted;
  pipe_ok = v.pipe_ok;
  byte = λ h. cc;
  room = v.room;
  order = v.order;
}
Step-IsFifo {s} (write_again cs i e) few v = record {
  counted = v.counted;
  pipe_ok = v.pipe_ok;
  byte = v.byte;
  room = λ h. cc;
  order = v.order;
}

start-IsFifo : (buf : ℕ → ℕ) → IsFifo (start buf)
start-IsFifo buf = record {
  counted = refl;
  pipe_ok = record { ordered = omega arith; bounded = omega arith; small = omega arith };
  byte = λ h. cc;
  room = λ h. cc;
  order = refl;
}

pub Reach-IsFifo :
    {buf : ℕ → ℕ} {s : System} → Reach buf s → length s.sent + by2pipe < 2 ^ 32 → IsFifo s
Reach-IsFifo {buf} here few = start-IsFifo buf
Reach-IsFifo (next r st) few = Step-IsFifo st few (Reach-IsFifo r (omega (arith, Step-sent st)))

-- However a reader and a writer are interleaved, and whatever they learn about the other end, a pipe
-- through which fewer than 2^32 - 32 bytes went is a queue: the bytes that came out, followed by those
-- that wait, are the bytes that went in, in order, none lost and none doubled; and at most 32 wait.
pub queue_in_order :
    {buf : ℕ → ℕ} {s : System}
    → Reach buf s
    → length s.sent + by2pipe < 2 ^ 32
    → (s.received ++ contents s.pipe ≡ s.sent) × (s.pipe.wpos ≤ s.pipe.rpos + by2pipe)
queue_in_order r few = let v = Reach-IsFifo r few in (v.order, v.pipe_ok.bounded)
