-- ===== src/Wal/Tests.antt =====
-- A run of src/zrtools/zrt_wal_entry.h.
use zrtools.Prelude.{ℕ, ◌≡◌, refl, arith, List, [], ◌∷◌, length, some, true}
use zrtools.Wal.Entry.{align_up}
use zrtools.Wal.Built.{written_header}
use zrtools.Wal.Builder.{build, cleared, Holds, build-Holds}

abbrev text : List ℕ
text = 10 ∷ 20 ∷ 30 ∷ []

align_up-nine : align_up 9 8 ≡ 16
unfolding align_up
align_up-nine = refl

build-Holds_example :
    let built = build 4096 cleared 7 99 2 (some text) (length text) in
    (built.0 ≡ true) × Holds built.1 (written_header 7 99 2 text) text
build-Holds_example =
    build-Holds 4096 cleared 7 99 2 text
      (record {
        seq_fits = omega arith;
        timestamp_fits = omega arith;
        type_fits = omega arith;
        data_fits = omega arith;
      })
      (omega arith)
