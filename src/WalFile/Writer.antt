-- ===== src/WalFile/Writer.antt =====
-- src/zrtools/zrt_wal_file.h: `WalFileWriter`. Its file is the bytes that were written, of which a number
-- is on the disk. The data of an entry is the list of its bytes, whose length is `len`. A directory is
-- the list of its regular files in the order of the iterator, a name the list of its characters.
use zrtools.Prelude.{
  ℕ, ◌+◌, ◌%◌, Bool, true, false, List, [], ◌++◌, if◌then◌else◌, ◌==◌, length, drop, wrap64, sub64,
}
use zrtools.Crc.Calc.{calc}
use zrtools.Wal.Entry.{Header}
use zrtools.WalFile.Bytes.{default_file_header, file_header_bytes, file_header_size, entry_bytes}

pub record Writer : Type 0 where
  pub is_open : Bool
  pub file : List ℕ
  pub on_disk : ℕ
  pub current_seq : ℕ
  pub entry_count : ℕ
  pub sync_interval : ℕ

-- The constructor, before `Init`.
unfoldable pub create : Writer
create = record {
  is_open = false;
  file = [];
  on_disk = 0;
  current_seq = 0;
  entry_count = 0;
  sync_interval = 100;
}

unfoldable pub create_new_file : ℕ → Writer → Writer
create_new_file now w = record w {
  is_open = true;
  file =
      file_header_bytes (record default_file_header {
        start_seq = wrap64 (w.current_seq + 1);
        create_time_ns = now;
      });
  on_disk = 0;
  entry_count = 0;
}

-- The header that `Append` makes.
unfoldable pub new_header : ℕ → ℕ → ℕ → List ℕ → Header
new_header seq timestamp_ns type content = record {
  seq = seq;
  timestamp_ns = timestamp_ns;
  type = type;
  data_len = length content;
  crc32 = calc content;
}

-- `Append`, at a time: the writer after it, and the number that it returns.
unfoldable pub append : ℕ → ℕ → List ℕ → Writer → Writer × ℕ
append now type content w =
    if w.is_open
    then (let seq = wrap64 (w.current_seq + 1) in
        let file = w.file ++ entry_bytes (new_header seq now type content, content) in
        let count = wrap64 (w.entry_count + 1) in
        (
          record w {
            file = file;
            on_disk = if count % w.sync_interval == 0 then length file else w.on_disk;
            current_seq = seq;
            entry_count = count;
          },
          seq,
        ))
    else (w, 0)

unfoldable pub sync : Writer → Writer
sync w = if w.is_open then record w { on_disk = length w.file } else w

-- The header goes over the first bytes of the file.
unfoldable pub update_file_header : ℕ → Writer → Writer
update_file_header now w =
    if w.is_open
    then record w {
      file =
          file_header_bytes (record default_file_header {
            start_seq = wrap64 (sub64 w.current_seq w.entry_count + 1);
            entry_count = w.entry_count;
            create_time_ns = now;
          })
          ++ drop file_header_size w.file;
    }
    else w

unfoldable pub close : ℕ → Writer → Writer
close now w =
    let updated = update_file_header now w in
    if w.is_open then record updated { is_open = false; on_disk = length updated.file } else w

abbrev pub get_current_seq : Writer → ℕ
get_current_seq w = w.current_seq

unfoldable pub set_sync_interval : ℕ → Writer → Writer
set_sync_interval interval w = record w { sync_interval = interval }
