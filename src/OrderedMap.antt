-- ===== src/OrderedMap.antt =====
-- server/internal/Map.go, ReadOnlyOrderedMap and SafeOrderedMap: maps that keep the order in which
-- keys were first stored. SafeOrderedMap holds the values, the list of keys and, for each key, its
-- index in that list; readers load a copy of the first two. A method is one critical section.
-- `none` as the result of a method is a panic.
pub mod Index
pub mod Refinement
pub mod Iteration
pub mod History
use fragua_age.Prelude.{
  ℕ, zero, suc, ◌+◌, ◌-◌, Bool, true, false, Option, none, some, List, [], ◌∷◌, ◌++◌, map, length,
  ltb, or_zero, if◌then◌else◌,
}
use fragua_age.GoMap
use fragua_age.GoMap.{GoMap}
use fragua_age.SafeMap.{or_always}

-- baseSafeOrderedMapData, and ReadOnlyOrderedMap
pub record Base (K V : Type 0) : Type 0 where
  pub internal : GoMap K V
  pub keys : List K

-- safeOrderedMapData
pub record Indexed (K V : Type 0) : Type 0 where
  pub base : Base K V
  pub open base use *
  pub key_map : GoMap K ℕ

pub record OrderedMap (K V : Type 0) : Type 0 where
  pub inner : Indexed K V
  pub open inner use *
  pub ro : Base K V

module _ {ℓ} {A : Type ℓ} where
  -- slices.Delete(s, i, i+1), which panics where i is out of range
  unfoldable pub delete_at : List A → ℕ → Option (List A)
  delete_at [] i = none
  delete_at (x ∷ xs) zero = some xs
  delete_at (x ∷ xs) (suc i) = elim (delete_at xs i) [ none ↦ none | some ys ↦ some (x ∷ ys) ]

-- for k, idx := range m.data.keyMap { if idx > index { m.data.keyMap[k] = idx - 1 } }
abbrev pub shift_down : ℕ → ℕ → ℕ
shift_down index idx = if ltb index idx then idx - 1 else idx

module _ {K V : Type 0} where
  -- the clones share their values, so they are the maps and the slices themselves
  unfoldable pub update_read_only : OrderedMap K V → OrderedMap K V
  update_read_only m = record m { ro = m.base }

  unfoldable pub new_ordered_map : OrderedMap K V
  unfolding update_read_only
  new_ordered_map =
      let base : Base K V = record { internal = GoMap.empty; keys = [] } in
      update_read_only (record { inner = record { base = base; key_map = GoMap.empty }; ro = base })

  unfoldable pub len : OrderedMap K V → ℕ
  len m = length m.ro.keys

  unfoldable pub keys : OrderedMap K V → ℕ × List K
  keys m = (length m.ro.keys, m.ro.keys)

  unfoldable pub read_only_len : Base K V → ℕ
  read_only_len m = length m.keys

  -- NewReadOnlyOrderedMap
  unfoldable pub new_read_only : List K → GoMap K V → Base K V
  new_read_only key_order mapping = record { internal = mapping; keys = key_order }

module _ {K V : Type 0} (dec : Discrete K) where
  -- the results are whether the key existed and the stored value
  unfoldable pub store : K → V → Option (V → Bool) → OrderedMap K V → (Bool × V) × OrderedMap K V
  unfolding update_read_only
  store key value replace m = elim (GoMap.get dec m.internal key) [
    | none ↦
        let base : Base K V = record {
          internal = GoMap.set dec m.internal key value;
          keys = m.base.keys ++ key ∷ [];
        } in
        let inner : Indexed K V = record {
          base = base;
          key_map = GoMap.set dec m.key_map key (length m.base.keys);
        } in
        ((false, value), update_read_only (record m { inner = inner }))
    | some stored ↦
        if or_always replace stored
        then (let base : Base K V = record {
          internal = GoMap.set dec m.internal key value;
          keys = m.base.keys;
        } in
            let inner : Indexed K V = record { base = base; key_map = m.key_map } in
            ((true, value), update_read_only (record m { inner = inner })))
        else ((true, stored), m)
  ]

  unfoldable pub read_only_load : Base K V → K → Option V
  read_only_load m key = GoMap.get dec m.internal key

  unfoldable pub load : OrderedMap K V → K → Option V
  load m key = GoMap.get dec m.ro.internal key

  unfoldable pub delete : K → OrderedMap K V → Option (Bool × OrderedMap K V)
  unfolding update_read_only
  delete key m = elim (GoMap.get dec m.internal key) [
    | none ↦ some (false, m)
    | some _ ↦
        let index = or_zero 0 (GoMap.get dec m.key_map key) in
        elim (delete_at m.base.keys index) [
          | none ↦ none
          | some rest ↦
              let base : Base K V = record {
                internal = GoMap.del dec m.internal key;
                keys = rest;
              } in
              let inner : Indexed K V = record {
                base = base;
                key_map = GoMap.map_values (shift_down index) (GoMap.del dec m.key_map key);
              } in
              some (true, update_read_only (record m { inner = inner }))
        ]
  ]

  module _ (zero_value : V) where
    -- the pairs that the iterator yields; a read of a missing key is the zero value of V
    unfoldable pub base_iter : Base K V → List (K × V)
    base_iter m = map (λ key. (key, or_zero zero_value (GoMap.get dec m.internal key))) m.keys

    unfoldable pub iter : OrderedMap K V → ℕ × List (K × V)
    unfolding base_iter
    iter m = (length m.ro.keys, base_iter m.ro)

    unfoldable pub values : OrderedMap K V → ℕ × List V
    values m = (
      length m.ro.keys,
      map (λ key. or_zero zero_value (GoMap.get dec m.ro.internal key)) m.ro.keys,
    )

    unfoldable pub read_only_values : Base K V → List V
    read_only_values m = map (λ key. or_zero zero_value (GoMap.get dec m.internal key)) m.keys

    -- `fn` is called with the entries as they are before the store
    unfoldable pub iter_and_store :
        {R : Type 0}
        → K
        → V
        → Option (V → Bool)
        → (ℕ → List (K × V) → R)
        → OrderedMap K V
        → (R × Bool × V) × OrderedMap K V
    unfolding base_iter store
    iter_and_store key value replace fn m =
        let seen = fn (length m.base.keys) (base_iter m.base) in
        let (r, m') = store key value replace m in ((seen, r.0, r.1), m')

    first_of : Base K V → List K → Option (K × V)
    first_of m [] = none
    first_of m (key ∷ _) = some (key, or_zero zero_value (GoMap.get dec m.internal key))

    unfoldable pub first : OrderedMap K V → Option (K × V)
    unfolding first_of
    first m = first_of m.ro m.ro.keys
