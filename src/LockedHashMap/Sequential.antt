-- ===== src/LockedHashMap/Sequential.antt =====
-- src/zrtools/zrt_locked_hash_map.h: under the lock, any interleaving of the calls is a sequence of them.
use zrtools.Prelude.{
  ℕ, Bool, true, false, List, ◌≡◌, ◌≢◌, refl, sym, ap, subst, arith, if◌then◌else◌, ◌==◌,
  Bool-cases, inl, inr,
}
use zrtools.LockedHashMap.Map.{Call, run, is_shared, run-shared}
use zrtools.LockedHashMap.Threads.{
  Place, idle, waiting, inside, loaded, leaving, holds, holds_alone, World, put, Step, call, lock,
  lock_shared, load, store, unlock, Reaches, start, more, IsRun, quiet,
}

module _ {K V : Type 0} (key_equal : K → K → Bool) (init : V) where
  -- A thread that holds the lock alone is the only one that holds it, a map that was loaded is the map,
  -- and the log is a run.
  record IsSafe (first : List (K × V)) (w : World K V) : Type 0 where
    pub alone : (t u : ℕ) → t ≢ u → holds_alone (w.places t) ≡ true → holds (w.places u) ≡ false
    pub current : (t : ℕ) (c : Call K V) (m : List (K × V)) → w.places t ≡ loaded c m → m ≡ w.stored
    pub ran : IsRun key_equal init first w.log w.stored

  -- A thread that goes on without taking the lock.
  moved-alone :
      (places : ℕ → Place K V) (t : ℕ) (p : Place K V)
      → ((v u : ℕ) → v ≢ u → holds_alone (places v) ≡ true → holds (places u) ≡ false)
      → (holds_alone p ≡ true → holds_alone (places t) ≡ true)
      → (holds p ≡ true → holds (places t) ≡ true)
      → (v u : ℕ) → v ≢ u
      → holds_alone (put places t p v) ≡ true
      → holds (put places t p u) ≡ false
  moved-alone places t p safe a s v u apart h =
      ground (arith, safe v u apart, safe t u, safe v t, a, s, h)

  alone_holds : (p : Place K V) → holds_alone p ≡ true → holds p ≡ true
  alone_holds p h = ground arith

  loaded_map : Place K V → List (K × V) → List (K × V)
  loaded_map (loaded c m) d = m
  loaded_map idle d = d
  loaded_map (waiting c) d = d
  loaded_map (inside c) d = d
  loaded_map (leaving c) d = d

  -- A map that a thread has loaded, after another step.
  moved-current :
      (places : ℕ → Place K V) (t : ℕ) (p : Place K V) (now later : List (K × V))
      → ((v : ℕ) (c : Call K V) (m : List (K × V)) → v ≢ t → places v ≡ loaded c m → m ≡ later)
      → ((c : Call K V) (m : List (K × V)) → p ≡ loaded c m → m ≡ later)
      → (v : ℕ) (c : Call K V) (m : List (K × V)) → put places t p v ≡ loaded c m
      → m ≡ later
  moved-current places t p now later others here v c m e = elim (Bool-cases (v == t)) [
    | inl same ↦ here c m (rw same at e)
    | inr apart ↦ others v c m (ground arith) (rw apart at e)
  ]

  stored_run :
      (c : Call K V) (m : List (K × V))
      → run key_equal init c m
        ≡ (if is_shared c then m else (run key_equal init c m).0, (run key_equal init c m).1)
  stored_run c m = elim (Bool-cases (is_shared c)) [
    | inl shared ↦ rw shared (
        ap (λ (n : List (K × V)). (n, (run key_equal init c m).1))
          (run-shared key_equal init c m shared))
    | inr alone ↦ rw alone refl
  ]

  -- A store leaves what others have loaded: a thread that stores is alone.
  kept :
      (first : List (K × V)) {w : World K V}
      → IsSafe first w
      → (t : ℕ) (c : Call K V) (m : List (K × V)) → w.places t ≡ loaded c m
      → (v : ℕ) (d : Call K V) (n : List (K × V)) → v ≢ t
      → w.places v ≡ loaded d n
      → n ≡ (if is_shared c then w.stored else (run key_equal init c m).0)
  kept first {w = w} o t c m e v d n apart h = elim (Bool-cases (is_shared c)) [
    | inl shared ↦ rw shared (o.current v d n h)
    | inr alone ↦
        let own : holds_alone (w.places t) ≡ true = rw (e, alone) refl in
        let out : holds (w.places v) ≡ false = o.alone t v (λ x. apart (sym x)) own in
        absurd (ground (arith, rw h at out))
  ]

  step-IsSafe :
      (first : List (K × V)) {w w' : World K V}
      → IsSafe first w
      → Step key_equal init w w'
      → IsSafe first w'
  unfolding IsRun loaded_map
  step-IsSafe first o (call w t c e) = record {
    alone =
        moved-alone w.places t (waiting c) o.alone (λ h. absurd (ground arith))
          (λ h. absurd (ground arith));
    current =
        moved-current w.places t (waiting c) w.stored w.stored (λ v d m apart h. o.current v d m h)
          (λ d m h. absurd (ground arith));
    ran = o.ran;
  }
  step-IsSafe first o (lock w t c e own open_) = record {
    alone = λ v u apart h. ground (arith, open_ u, open_ v, alone_holds (w.places v), h);
    current =
        moved-current w.places t (inside c) w.stored w.stored (λ v d m apart h. o.current v d m h)
          (λ d m h. absurd (ground arith));
    ran = o.ran;
  }
  step-IsSafe first o (lock_shared w t c e shared open_) = record {
    alone = λ v u apart h. ground (arith, open_ u, open_ v, o.alone v u apart, shared, h);
    current =
        moved-current w.places t (inside c) w.stored w.stored (λ v d m apart h. o.current v d m h)
          (λ d m h. absurd (ground arith));
    ran = o.ran;
  }
  step-IsSafe first o (load w t c e) = record {
    alone = moved-alone w.places t (loaded c w.stored) o.alone (λ h. rw e h) (λ h. rw e refl);
    current =
        moved-current w.places t (loaded c w.stored) w.stored w.stored
          (λ v d m apart h. o.current v d m h)
          (λ d m h. sym (ap (λ (p : Place K V). loaded_map p m) h));
    ran = o.ran;
  }
  step-IsSafe first o (store w t c m e) = record {
    alone = moved-alone w.places t (leaving c) o.alone (λ h. rw e h) (λ h. rw e refl);
    current =
        moved-current w.places t (leaving c) w.stored
          (if is_shared c then w.stored else (run key_equal init c m).0) (kept first o t c m e)
          (λ d n h. absurd (ground arith));
    ran = (
      w.stored,
      o.ran,
      subst
          (λ (n : List (K × V)).
            run key_equal init c n
            ≡ (if is_shared c then n else (run key_equal init c m).0, (run key_equal init c m).1))
          (o.current t c m e) (stored_run c m),
    );
  }
  step-IsSafe first o (unlock w t c e) = record {
    alone =
        moved-alone w.places t idle o.alone (λ h. absurd (ground arith))
          (λ h. absurd (ground arith));
    current =
        moved-current w.places t idle w.stored w.stored (λ v d m apart h. o.current v d m h)
          (λ d m h. absurd (ground arith));
    ran = o.ran;
  }

  quiet-IsSafe : (first : List (K × V)) → IsSafe first (quiet first)
  unfolding IsRun
  quiet-IsSafe first = record {
    alone = λ t u apart h. refl;
    current = λ t c m h. absurd (ground arith);
    ran = refl;
  }

  reaches-IsSafe :
      (first : List (K × V)) {w : World K V}
      → Reaches key_equal init (quiet first) w
      → IsSafe first w
  reaches-IsSafe first r = from_safe (quiet-IsSafe first) r
    where
      from_safe :
          {w0 w : World K V} → IsSafe first w0 → Reaches key_equal init w0 w → IsSafe first w
      from_safe o (start w) = o
      from_safe o (more w w1 w2 r s) = step-IsSafe first (from_safe o r) s

  -- However the steps of any threads that call the operations are interleaved, the calls return what
  -- they return one after the other in the order of their stores, and leave the map that they leave.
  -- A thread whose call changes the map is the only one that holds the lock, and a map that a thread
  -- has loaded is the map until it stores.
  pub reaches-IsRun :
      (first : List (K × V)) (w : World K V)
      → Reaches key_equal init (quiet first) w
      → IsRun key_equal init first w.log w.stored
        × ((t u : ℕ) → t ≢ u → holds_alone (w.places t) ≡ true → holds (w.places u) ≡ false)
        × ((t : ℕ) (c : Call K V) (m : List (K × V)) → w.places t ≡ loaded c m → m ≡ w.stored)
  reaches-IsRun first w r = let o = reaches-IsSafe first r in (o.ran, o.alone, o.current)
