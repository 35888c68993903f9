-- ===== src/LockedHashMap/Map.antt =====
-- src/zrtools/zrt_locked_hash_map.h: what each operation of `LockedHashMap` does to the map under its
-- lock, and what it returns. `std::unordered_map` is the list of its pairs in the order of iteration,
-- which the standard leaves open: here a new pair is the first. A function that is called for each pair
-- is the list of the pairs that it is called with.
use zrtools.Prelude.{
  ℕ, Bool, true, false, List, [], ◌∷◌, Option, none, some, if◌then◌else◌, ◌==◌, length, ◌≡◌, refl,
  arith,
}

-- What an operation returns.
pub data Reply (K V : Type 0) : Type 0 where
  flag : Bool → Reply K V
  found : Option V → Reply K V
  value : V → Reply K V
  number : ℕ → Reply K V
  key_list : List K → Reply K V
  value_list : List V → Reply K V
  visited : List (K × V) → Reply K V
  nothing : Reply K V

module _ {K V : Type 0} (key_equal : K → K → Bool) where
  -- `m_map.find(key)`, with the value that the iterator points to.
  abbrev pub lookup : List (K × V) → K → Option V
  lookup [] k = none
  lookup ((k', v) ∷ m) k = if key_equal k' k then some v else lookup m k

  abbrev pub has : List (K × V) → K → Bool
  has m k = elim (lookup m k) [ none ↦ false | some v ↦ true ]

  -- The value of a key that is in the map becomes another one.
  unfoldable pub assign : List (K × V) → K → V → List (K × V)
  assign [] k v = []
  assign ((k', v') ∷ m) k v =
      let rest = (k', v') ∷ assign m k v in if key_equal k' k then (k', v) ∷ m else rest

  unfoldable pub insert_or_assign : K → V → List (K × V) → List (K × V) × Bool
  insert_or_assign k v m = if has m k then (assign m k v, false) else ((k, v) ∷ m, true)

  unfoldable pub insert : K → V → List (K × V) → List (K × V) × Bool
  insert k v m = if has m k then (m, false) else ((k, v) ∷ m, true)

  -- With the value that is built from the arguments.
  unfoldable pub emplace : K → V → List (K × V) → List (K × V) × Bool
  emplace k built m = insert k built m

  unfoldable pub find : K → List (K × V) → Option V
  find k m = elim (lookup m k) [ none ↦ none | some v ↦ some v ]

  unfoldable pub get_or_default : K → V → List (K × V) → V
  get_or_default k default_value m = elim (lookup m k) [ none ↦ default_value | some v ↦ v ]

  -- `operator[]`, which inserts `Value{}` where the key is missing.
  unfoldable pub at_key : V → K → List (K × V) → List (K × V) × V
  at_key init k m = elim (lookup m k) [ none ↦ ((k, init) ∷ m, init) | some v ↦ (m, v) ]

  unfoldable pub contains : K → List (K × V) → Bool
  contains k m = has m k

  -- `m_map.erase(key)`: the pair is taken out; a key has one at most.
  unfoldable pub without : K → List (K × V) → List (K × V)
  without k [] = []
  without k ((k', v) ∷ m) = let rest = (k', v) ∷ without k m in if key_equal k' k then m else rest

  unfoldable pub erase : K → List (K × V) → List (K × V) × Bool
  erase k m = (without k m, has m k)

  unfoldable pub update_if_exists : K → (V → V) → List (K × V) → List (K × V) × Bool
  update_if_exists k func m = elim (lookup m k) [
    | none ↦ (m, false)
    | some v ↦ (assign m k (func v), true)
  ]

module _ {K V : Type 0} where
  unfoldable pub size : List (K × V) → ℕ
  size m = length m

  unfoldable pub empty : List (K × V) → Bool
  empty m = length m == 0

  unfoldable pub clear : List (K × V) → List (K × V)
  clear m = []

  unfoldable pub for_each : List (K × V) → List (K × V)
  for_each [] = []
  for_each ((k, v) ∷ m) = (k, v) ∷ for_each m

  unfoldable pub for_each_mutable : (K → V → V) → List (K × V) → List (K × V)
  for_each_mutable func [] = []
  for_each_mutable func ((k, v) ∷ m) = (k, func k v) ∷ for_each_mutable func m

  unfoldable pub keys : List (K × V) → List K
  keys [] = []
  keys ((k, v) ∷ m) = k ∷ keys m

  unfoldable pub values : List (K × V) → List V
  values [] = []
  values ((k, v) ∷ m) = v ∷ values m

-- A call of an operation.
pub data Call (K V : Type 0) : Type 0 where
  call_insert_or_assign : K → V → Call K V
  call_insert : K → V → Call K V
  call_emplace : K → V → Call K V
  call_find : K → Call K V
  call_get_or_default : K → V → Call K V
  call_at_key : K → Call K V
  call_contains : K → Call K V
  call_erase : K → Call K V
  call_size : Call K V
  call_empty : Call K V
  call_clear : Call K V
  call_for_each : Call K V
  call_for_each_mutable : (K → V → V) → Call K V
  call_update_if_exists : K → (V → V) → Call K V
  call_keys : Call K V
  call_values : Call K V

module _ {K V : Type 0} where
  -- The calls that take the lock by `std::shared_lock`.
  unfoldable pub is_shared : Call K V → Bool
  is_shared (call_insert_or_assign k v) = false
  is_shared (call_insert k v) = false
  is_shared (call_emplace k v) = false
  is_shared (call_find k) = true
  is_shared (call_get_or_default k v) = true
  is_shared (call_at_key k) = false
  is_shared (call_contains k) = true
  is_shared (call_erase k) = false
  is_shared call_size = true
  is_shared call_empty = true
  is_shared call_clear = false
  is_shared call_for_each = true
  is_shared (call_for_each_mutable f) = false
  is_shared (call_update_if_exists k f) = false
  is_shared call_keys = true
  is_shared call_values = true

  abbrev with_flag : List (K × V) × Bool → List (K × V) × Reply K V
  with_flag (m, b) = (m, flag b)

  abbrev with_value : List (K × V) × V → List (K × V) × Reply K V
  with_value (m, v) = (m, value v)

module _ {K V : Type 0} (key_equal : K → K → Bool) (init : V) where
  -- The map after a call that nothing disturbs, and what the call returns.
  unfoldable pub run : Call K V → List (K × V) → List (K × V) × Reply K V
  run (call_insert_or_assign k v) m = with_flag (insert_or_assign key_equal k v m)
  run (call_insert k v) m = with_flag (insert key_equal k v m)
  run (call_emplace k v) m = with_flag (emplace key_equal k v m)
  run (call_find k) m = (m, found (find key_equal k m))
  run (call_get_or_default k v) m = (m, value (get_or_default key_equal k v m))
  run (call_at_key k) m = with_value (at_key key_equal init k m)
  run (call_contains k) m = (m, flag (contains key_equal k m))
  run (call_erase k) m = with_flag (erase key_equal k m)
  run call_size m = (m, number (size m))
  run call_empty m = (m, flag (empty m))
  run call_clear m = (clear m, nothing)
  run call_for_each m = (m, visited (for_each m))
  run (call_for_each_mutable f) m = (for_each_mutable f m, nothing)
  run (call_update_if_exists k f) m = with_flag (update_if_exists key_equal k f m)
  run call_keys m = (m, key_list (keys m))
  run call_values m = (m, value_list (values m))

  -- A call under the shared lock leaves the map.
  pub run-shared : (c : Call K V) (m : List (K × V)) → is_shared c ≡ true → (run c m).0 ≡ m
  unfolding run is_shared
  run-shared (call_find k) m h = refl
  run-shared (call_get_or_default k v) m h = refl
  run-shared (call_contains k) m h = refl
  run-shared call_size m h = refl
  run-shared call_empty m h = refl
  run-shared call_for_each m h = refl
  run-shared call_keys m h = refl
  run-shared call_values m h = refl
  run-shared (call_insert_or_assign k v) m h = absurd (ground arith)
  run-shared (call_insert k v) m h = absurd (ground arith)
  run-shared (call_emplace k v) m h = absurd (ground arith)
  run-shared (call_at_key k) m h = absurd (ground arith)
  run-shared (call_erase k) m h = absurd (ground arith)
  run-shared call_clear m h = absurd (ground arith)
  run-shared (call_for_each_mutable f) m h = absurd (ground arith)
  run-shared (call_update_if_exists k f) m h = absurd (ground arith)
