-- ===== src/LockedHashMap/Threads.antt =====
-- src/zrtools/zrt_locked_hash_map.h: threads that call the operations of one `LockedHashMap`, step by
-- step. A thread takes the lock, loads the map, stores what its call makes of the map that it loaded,
-- and gives the lock back; nothing but the lock keeps others from a store in between.
-- `std::shared_mutex` lets a thread in alone, or with others that share it.
use zrtools.Prelude.{ℕ, Bool, true, false, List, [], ◌∷◌, ◌≡◌, if◌then◌else◌, ◌==◌}
use zrtools.LockedHashMap.Map.{Call, Reply, run, is_shared}

-- Where a thread is.
pub data Place (K V : Type 0) : Type 0 where
  idle : Place K V
  waiting : Call K V → Place K V
  inside : Call K V → Place K V
  loaded : Call K V → List (K × V) → Place K V
  leaving : Call K V → Place K V

module _ {K V : Type 0} where
  -- The thread holds the lock, alone or shared.
  abbrev pub holds : Place K V → Bool
  holds idle = false
  holds (waiting c) = false
  holds (inside c) = true
  holds (loaded c m) = true
  holds (leaving c) = true

  abbrev pub holds_alone : Place K V → Bool
  holds_alone idle = false
  holds_alone (waiting c) = false
  holds_alone (inside c) = if is_shared c then false else true
  holds_alone (loaded c m) = if is_shared c then false else true
  holds_alone (leaving c) = if is_shared c then false else true

-- The map, the threads, and the calls that have stored, the last one first, with what they return.
pub record World (K V : Type 0) : Type 0 where
  pub stored : List (K × V)
  pub places : ℕ → Place K V
  pub log : List (Call K V × Reply K V)

-- A thread goes to another place.
abbrev pub put : {A : Type 0} → (ℕ → A) → ℕ → A → ℕ → A
put places t p u = if u == t then p else places u

module _ {K V : Type 0} (key_equal : K → K → Bool) (init : V) where
  -- A step of one thread.
  pub data Step : World K V → World K V → Type 0 where
    call :
        (w : World K V) (t : ℕ) (c : Call K V)
        → w.places t ≡ idle
        → Step w (record w { places = put w.places t (waiting c) })
    lock :
        (w : World K V) (t : ℕ) (c : Call K V)
        → w.places t ≡ waiting c
        → is_shared c ≡ false
        → ((u : ℕ) → holds (w.places u) ≡ false)
        → Step w (record w { places = put w.places t (inside c) })
    lock_shared :
        (w : World K V) (t : ℕ) (c : Call K V)
        → w.places t ≡ waiting c
        → is_shared c ≡ true
        → ((u : ℕ) → holds_alone (w.places u) ≡ false)
        → Step w (record w { places = put w.places t (inside c) })
    load :
        (w : World K V) (t : ℕ) (c : Call K V)
        → w.places t ≡ inside c
        → Step w (record w { places = put w.places t (loaded c w.stored) })
    store :
        (w : World K V) (t : ℕ) (c : Call K V) (m : List (K × V))
        → w.places t ≡ loaded c m
        → Step w (record {
          stored = if is_shared c then w.stored else (run key_equal init c m).0;
          places = put w.places t (leaving c);
          log = (c, (run key_equal init c m).1) ∷ w.log;
        })
    unlock :
        (w : World K V) (t : ℕ) (c : Call K V)
        → w.places t ≡ leaving c
        → Step w (record w { places = put w.places t idle })

  -- What any steps of any threads lead to.
  pub data Reaches : World K V → World K V → Type 0 where
    start : (w : World K V) → Reaches w w
    more : (w w1 w2 : World K V) → Reaches w w1 → Step w1 w2 → Reaches w w2

  -- The calls of a log, run one after the other from a map, return what the log says and leave a map.
  unfoldable pub IsRun : List (K × V) → List (Call K V × Reply K V) → List (K × V) → Type 0
  IsRun first [] last = last ≡ first
  IsRun first ((c, r) ∷ log) last =
      (m : List (K × V)) × IsRun first log m × (run key_equal init c m ≡ (last, r))

-- Before the first call.
abbrev pub quiet : {K V : Type 0} → List (K × V) → World K V
quiet m = record { stored = m; places = λ t. idle; log = [] }
