-- ===== src/Io/Buffer.antt =====
-- A writer in memory, for concrete runs: it takes everything that is written.
use ghost_vpn.Base.{refl, none, ◌++◌, Bytes, length}
use ghost_vpn.Io.{Writer, WriterLaws}

instance unfoldable pub buffer : Writer Bytes
buffer = record { write = λ w p. (w ++ p, length p, none) }

abbrev pub all_sent : Bytes → Bytes
all_sent w = w

pub buffer_laws : WriterLaws buffer all_sent
unfolding buffer
buffer_laws = record { writes_all = λ w p h. (refl, refl) }
