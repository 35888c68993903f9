-- ===== src/LockedHashMap/Lookup.antt =====
-- src/zrtools/zrt_locked_hash_map.h: the operations against a map from keys to values.
use zrtools.Prelude.{
  Bool, true, false, not, List, [], ◌∷◌, Option, none, some, ◌≡◌, ◌↔◌, inl, inr, refl, arith,
  if◌then◌else◌, Option-cases,
}
use zrtools.LockedHashMap.Map.{
  Call, Reply, flag, found, value, lookup, has, assign, insert_or_assign, insert, emplace, find,
  get_or_default, at_key, contains, without, erase, update_if_exists, clear, for_each_mutable, run,
  call_insert_or_assign, call_insert, call_emplace, call_find, call_get_or_default, call_at_key,
  call_contains, call_erase, call_size, call_empty, call_clear, call_for_each,
  call_for_each_mutable, call_update_if_exists, call_keys, call_values,
}

abbrev pub option_map : {V : Type 0} → (V → V) → Option V → Option V
option_map f none = none
option_map f (some v) = some (f v)

module _ {K V : Type 0} (key_equal : K → K → Bool)
    (law : (a b : K) → (key_equal a b ≡ true) ↔ (a ≡ b)) where
  lookup-assign :
      (m : List (K × V)) (k : K) (v : V) (k' : K)
      → lookup key_equal (assign key_equal m k v) k' ≡ (
          if key_equal k k'
          then option_map (λ x. v) (lookup key_equal m k)
          else lookup key_equal m k')
  unfolding assign
  lookup-assign [] k v k' = ground arith
  lookup-assign ((a, x) ∷ m) k v k' =
      ground (arith, law a k, law a k', law k k', lookup-assign m k v k')

  -- No key stands twice.
  unfoldable pub IsMap : List (K × V) → Type 0
  IsMap [] = Unit {0}
  IsMap ((k, v) ∷ m) = (lookup key_equal m k ≡ none) × IsMap m

  lookup-without-none :
      (m : List (K × V)) (k k' : K)
      → lookup key_equal m k' ≡ none
      → lookup key_equal (without key_equal k m) k' ≡ none
  unfolding without
  lookup-without-none [] k k' h = refl
  lookup-without-none ((a, x) ∷ m) k k' h =
      ground (arith, law a k, law a k', lookup-without-none m k k', h)

  lookup-without :
      (m : List (K × V)) (k k' : K)
      → IsMap m
      → lookup key_equal (without key_equal k m) k'
        ≡ (if key_equal k k' then none else lookup key_equal m k')
  unfolding without IsMap
  lookup-without [] k k' h = ground arith
  lookup-without ((a, x) ∷ m) k k' h =
      ground (arith, law a k, law a k', law k k', lookup-without m k k' h.1, h.0)

  lookup-for_each_mutable :
      (m : List (K × V)) (f : K → V → V) (k' : K)
      → lookup key_equal (for_each_mutable f m) k' ≡ option_map (f k') (lookup key_equal m k')
  unfolding for_each_mutable
  lookup-for_each_mutable [] f k' = refl
  lookup-for_each_mutable ((a, x) ∷ m) f k' =
      ground (arith, law a k', lookup-for_each_mutable m f k')

  assign-IsMap : (m : List (K × V)) (k : K) (v : V) → IsMap m → IsMap (assign key_equal m k v)
  unfolding assign IsMap
  assign-IsMap [] k v h = h
  assign-IsMap ((a, x) ∷ m) k v h =
      ground (arith, law a k, law k a, lookup-assign m k v a, assign-IsMap m k v h.1, h.0)

  without-IsMap : (m : List (K × V)) (k : K) → IsMap m → IsMap (without key_equal k m)
  unfolding without IsMap
  without-IsMap [] k h = h
  without-IsMap ((a, x) ∷ m) k h =
      ground (arith, lookup-without-none m k a h.0, without-IsMap m k h.1, h)

  for_each_mutable-IsMap :
      (m : List (K × V)) (f : K → V → V) → IsMap m → IsMap (for_each_mutable f m)
  unfolding for_each_mutable IsMap
  for_each_mutable-IsMap [] f h = h
  for_each_mutable-IsMap ((a, x) ∷ m) f h =
      (ground (arith, lookup-for_each_mutable m f a, h.0), for_each_mutable-IsMap m f h.1)

  abbrev is_some : Option V → Bool
  is_some none = false
  is_some (some v) = true

  abbrev or_else : Option V → V → V
  or_else none d = d
  or_else (some v) d = v

  -- The value of each key after a call, from the values before.
  unfoldable pub value_after : V → Call K V → (K → Option V) → K → Option V
  value_after init (call_insert_or_assign k v) f k' = if key_equal k k' then some v else f k'
  value_after init (call_insert k v) f k' = if key_equal k k' then some (or_else (f k) v) else f k'
  value_after init (call_emplace k v) f k' = if key_equal k k' then some (or_else (f k) v) else f k'
  value_after init (call_find k) f k' = f k'
  value_after init (call_get_or_default k v) f k' = f k'
  value_after init (call_at_key k) f k' = if key_equal k k' then some (or_else (f k) init) else f k'
  value_after init (call_contains k) f k' = f k'
  value_after init (call_erase k) f k' = if key_equal k k' then none else f k'
  value_after init call_size f k' = f k'
  value_after init call_empty f k' = f k'
  value_after init call_clear f k' = none
  value_after init call_for_each f k' = f k'
  value_after init (call_for_each_mutable g) f k' = option_map (g k') (f k')
  value_after init (call_update_if_exists k g) f k' =
      if key_equal k k' then option_map g (f k) else f k'
  value_after init call_keys f k' = f k'
  value_after init call_values f k' = f k'

  -- What a call on one key returns, from the values before.
  unfoldable pub IsAnswer : V → Call K V → (K → Option V) → Reply K V → Type 0
  IsAnswer init (call_insert_or_assign k v) f r = r ≡ flag (not (is_some (f k)))
  IsAnswer init (call_insert k v) f r = r ≡ flag (not (is_some (f k)))
  IsAnswer init (call_emplace k v) f r = r ≡ flag (not (is_some (f k)))
  IsAnswer init (call_find k) f r = r ≡ found (f k)
  IsAnswer init (call_get_or_default k v) f r = r ≡ value (or_else (f k) v)
  IsAnswer init (call_at_key k) f r = r ≡ value (or_else (f k) init)
  IsAnswer init (call_contains k) f r = r ≡ flag (is_some (f k))
  IsAnswer init (call_erase k) f r = r ≡ flag (is_some (f k))
  IsAnswer init (call_update_if_exists k g) f r = r ≡ flag (is_some (f k))
  IsAnswer init call_size f r = Unit {0}
  IsAnswer init call_empty f r = Unit {0}
  IsAnswer init call_clear f r = Unit {0}
  IsAnswer init call_for_each f r = Unit {0}
  IsAnswer init (call_for_each_mutable g) f r = Unit {0}
  IsAnswer init call_keys f r = Unit {0}
  IsAnswer init call_values f r = Unit {0}

  abbrev Keeps : V → Call K V → List (K × V) → List (K × V) × Reply K V → Type 0
  Keeps init c m (m', r) =
      IsMap m'
      × ((k' : K) → lookup key_equal m' k' ≡ value_after init c (lookup key_equal m) k')
      × IsAnswer init c (lookup key_equal m) r

  insert_or_assign-Keeps :
      (init : V) (k : K) (v : V) (m : List (K × V))
      → IsMap m
      → let (m', b) = insert_or_assign key_equal k v m in
        Keeps init (call_insert_or_assign k v) m (m', flag b)
  unfolding insert_or_assign value_after IsAnswer IsMap
  insert_or_assign-Keeps init k v m h = elim (Option-cases (lookup key_equal m k)) [
    | inl missing ↦
        let e : insert_or_assign key_equal k v m ≡ ((k, v) ∷ m, true) =
          rw (missing, insert_or_assign, has) refl in
        rw e ((missing, h), (λ k'. refl), rw missing refl)
    | inr (x, there) ↦
        let e : insert_or_assign key_equal k v m ≡ (assign key_equal m k v, false) =
          rw (there, insert_or_assign, has) refl in
        rw e (
          assign-IsMap m k v h,
          (λ k'. ground (arith, lookup-assign m k v k', there)),
          rw there refl,
        )
  ]

  insert-Keeps :
      (init : V) (k : K) (v : V) (m : List (K × V))
      → IsMap m
      → let (m', b) = insert key_equal k v m in Keeps init (call_insert k v) m (m', flag b)
  unfolding insert value_after IsAnswer IsMap
  insert-Keeps init k v m h = elim (Option-cases (lookup key_equal m k)) [
    | inl missing ↦
        let e : insert key_equal k v m ≡ ((k, v) ∷ m, true) = rw (missing, insert, has) refl in
        rw e ((missing, h), (λ k'. rw missing refl), rw missing refl)
    | inr (x, there) ↦
        let e : insert key_equal k v m ≡ (m, false) = rw (there, insert, has) refl in
        rw e (h, (λ k'. ground (arith, law k k', there)), rw there refl)
  ]

  at_key-Keeps :
      (init : V) (k : K) (m : List (K × V))
      → IsMap m
      → let (m', v) = at_key key_equal init k m in Keeps init (call_at_key k) m (m', value v)
  unfolding at_key value_after IsAnswer IsMap
  at_key-Keeps init k m h = elim (Option-cases (lookup key_equal m k)) [
    | inl missing ↦
        let e : at_key key_equal init k m ≡ ((k, init) ∷ m, init) = rw (missing, at_key) refl in
        rw e ((missing, h), (λ k'. rw missing refl), rw missing refl)
    | inr (x, there) ↦
        let e : at_key key_equal init k m ≡ (m, x) = rw (there, at_key) refl in
        rw e (h, (λ k'. ground (arith, law k k', there)), rw there refl)
  ]

  update_if_exists-Keeps :
      (init : V) (k : K) (g : V → V) (m : List (K × V))
      → IsMap m
      → let (m', b) = update_if_exists key_equal k g m in
        Keeps init (call_update_if_exists k g) m (m', flag b)
  unfolding update_if_exists value_after IsAnswer
  update_if_exists-Keeps init k g m h = elim (Option-cases (lookup key_equal m k)) [
    | inl missing ↦
        let e : update_if_exists key_equal k g m ≡ (m, false) =
          rw (missing, update_if_exists) refl in
        rw e (h, (λ k'. ground (arith, law k k', missing)), rw missing refl)
    | inr (x, there) ↦
        let e : update_if_exists key_equal k g m ≡ (assign key_equal m k (g x), true) =
          rw (there, update_if_exists) refl in
        rw e (
          assign-IsMap m k (g x) h,
          (λ k'. ground (arith, lookup-assign m k (g x) k', there)),
          rw there refl,
        )
  ]

  -- Every call keeps the keys apart and does to the value of each key what it promises, and a call on
  -- one key returns what the value of that key tells. Equality of keys is equality.
  pub run-IsMap :
      (init : V) (c : Call K V) (m : List (K × V))
      → IsMap m
      → let (m', r) = run key_equal init c m in
        IsMap m'
        × ((k' : K) → lookup key_equal m' k' ≡ value_after init c (lookup key_equal m) k')
        × IsAnswer init c (lookup key_equal m) r
  unfolding run value_after IsAnswer emplace find get_or_default contains erase clear IsMap insert
  run-IsMap init (call_insert_or_assign k v) m h = insert_or_assign-Keeps init k v m h
  run-IsMap init (call_insert k v) m h = insert-Keeps init k v m h
  run-IsMap init (call_emplace k v) m h = insert-Keeps init k v m h
  run-IsMap init (call_find k) m h = (h, (λ k'. refl), ground arith)
  run-IsMap init (call_get_or_default k v) m h = (h, (λ k'. refl), ground arith)
  run-IsMap init (call_at_key k) m h = at_key-Keeps init k m h
  run-IsMap init (call_contains k) m h = (h, (λ k'. refl), ground arith)
  run-IsMap init (call_erase k) m h =
      (without-IsMap m k h, (λ k'. lookup-without m k k' h), ground arith)
  run-IsMap init call_size m h = (h, (λ k'. refl), tt)
  run-IsMap init call_empty m h = (h, (λ k'. refl), tt)
  run-IsMap init call_clear m h = (tt, (λ k'. refl), tt)
  run-IsMap init call_for_each m h = (h, (λ k'. refl), tt)
  run-IsMap init (call_for_each_mutable f) m h =
      (for_each_mutable-IsMap m f h, lookup-for_each_mutable m f, tt)
  run-IsMap init (call_update_if_exists k g) m h = update_if_exists-Keeps init k g m h
  run-IsMap init call_keys m h = (h, (λ k'. refl), tt)
  run-IsMap init call_values m h = (h, (λ k'. refl), tt)
