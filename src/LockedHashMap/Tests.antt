-- ===== src/LockedHashMap/Tests.antt =====
-- Runs of src/zrtools/zrt_locked_hash_map.h, and its theorems at concrete calls of two threads.
use zrtools.Prelude.{ℕ, ◌≡◌, ◌≢◌, ◌↔◌, refl, arith, Bool, true, false, List, [], ◌∷◌, some, ◌==◌}
use zrtools.LockedHashMap.Map.{
  Call, flag, found, run, lookup, insert, find, is_shared, call_insert, call_find,
}
use zrtools.LockedHashMap.Lookup.{IsMap, value_after, IsAnswer, run-IsMap}
use zrtools.LockedHashMap.Threads.{
  waiting, inside, loaded, leaving, idle, holds, holds_alone, World, put, call, lock, lock_shared,
  load, store, unlock, Reaches, start, more, IsRun, quiet,
}
use zrtools.LockedHashMap.Sequential.{reaches-IsRun}

abbrev same : ℕ → ℕ → Bool
same a b = a == b

same_iff : (a b : ℕ) → (same a b ≡ true) ↔ (a ≡ b)
same_iff a b = ground arith

abbrev writes : Call ℕ ℕ
writes = call_insert 5 9

abbrev reads : Call ℕ ℕ
reads = call_find 5

-- Thread 1 inserts while thread 2 waits, and then thread 2 reads.
abbrev w0 : World ℕ ℕ
w0 = quiet []

abbrev w1 : World ℕ ℕ
w1 = record w0 { places = put w0.places 1 (waiting writes) }

abbrev w2 : World ℕ ℕ
w2 = record w1 { places = put w1.places 2 (waiting reads) }

abbrev w3 : World ℕ ℕ
w3 = record w2 { places = put w2.places 1 (inside writes) }

abbrev w4 : World ℕ ℕ
w4 = record w3 { places = put w3.places 1 (loaded writes []) }

abbrev w5 : World ℕ ℕ
w5 = record {
  stored = (5, 9) ∷ [];
  places = put w4.places 1 (leaving writes);
  log = (writes, flag true) ∷ [];
}

abbrev w6 : World ℕ ℕ
w6 = record w5 { places = put w5.places 1 idle }

abbrev w7 : World ℕ ℕ
w7 = record w6 { places = put w6.places 2 (inside reads) }

abbrev w8 : World ℕ ℕ
w8 = record w7 { places = put w7.places 2 (loaded reads ((5, 9) ∷ [])) }

abbrev w9 : World ℕ ℕ
w9 = record {
  stored = (5, 9) ∷ [];
  places = put w8.places 2 (leaving reads);
  log = (reads, found (some 9)) ∷ (writes, flag true) ∷ [];
}

two_threads : Reaches same 0 w0 w9
unfolding run insert find is_shared
two_threads =
    more w0 w8 w9
      (more w0 w7 w8
        (more w0 w6 w7
          (more w0 w5 w6
            (more w0 w4 w5
              (more w0 w3 w4
                (more w0 w2 w3
                  (more w0 w1 w2 (more w0 w0 w1 (start w0) (call w0 1 writes refl))
                    (call w1 2 reads refl))
                  (lock w2 1 writes refl refl (λ u. ground arith)))
                (load w3 1 writes refl))
              (store w4 1 writes [] refl))
            (unlock w5 1 writes refl))
          (lock_shared w6 2 reads refl refl (λ u. ground arith)))
        (load w7 2 reads refl))
      (store w8 2 reads ((5, 9) ∷ []) refl)

reaches-IsRun_example :
    IsRun same 0 [] ((reads, found (some 9)) ∷ (writes, flag true) ∷ []) ((5, 9) ∷ [])
    × ((t u : ℕ) → t ≢ u → holds_alone (w9.places t) ≡ true → holds (w9.places u) ≡ false)
    × ((t : ℕ) (c : Call ℕ ℕ) (m : List (ℕ × ℕ)) → w9.places t ≡ loaded c m → m ≡ w9.stored)
reaches-IsRun_example = reaches-IsRun same 0 [] w9 two_threads

run-IsMap_example :
    let m : List (ℕ × ℕ) = (5, 9) ∷ [] in
    let (m', r) = run same 0 (call_insert 6 1) m in
    IsMap same same_iff m'
    × ((k' : ℕ)
        → lookup same m' k' ≡ value_after same same_iff 0 (call_insert 6 1) (lookup same m) k')
    × IsAnswer same same_iff 0 (call_insert 6 1) (lookup same m) r
unfolding IsMap
run-IsMap_example = run-IsMap same same_iff 0 (call_insert 6 1) ((5, 9) ∷ []) (refl, tt)
