-- ===== src/WalFile/Restart.antt =====
-- src/zrtools/zrt_wal_file.h: a writer that crashes, another that goes on where it stopped, and a reader
-- of both files.
use zrtools.Prelude.{ℕ, ◌<◌, List, [], ◌∷◌}
use zrtools.WalFile.Bytes.{Entry}
use zrtools.WalFile.Writer.{Writer}

-- The numbers of entries go up, from above a number.
unfoldable pub Increasing : ℕ → List Entry → Type 0
Increasing seq [] = Unit {0}
Increasing seq ((h, content) ∷ es) = (seq < h.seq) × Increasing h.seq es
