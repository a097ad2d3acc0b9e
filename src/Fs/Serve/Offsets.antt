-- ===== src/Fs/Serve/Offsets.antt =====
-- Block numbers and byte offsets in the requests of fs/serv.c.
use demo2s.Base.{ℕ}
use demo2s.Fs.State.{Server, peek, poke}

-- The byte that is written to itself makes the block dirty.
touched : ℕ → Server → Server
touched b s = poke (b, 0) (peek s (b, 0)) s
