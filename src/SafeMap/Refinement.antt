-- ===== src/SafeMap/Refinement.antt =====
-- The lock-free readers of a SafeMap see one map, the one that the writers built: a history of calls
-- answers as a plain partial function answers.
use fragua_age.Prelude.{
  ◌≡◌, ◌≢◌, refl, Bool, true, false, not, ◌&&◌, Option, none, some, List, [], ◌∷◌, arith, ite,
  if◌then◌else◌, is_some, or_zero,
}
use fragua_age.GoMap
use fragua_age.GoMap.{GoMap, get-set, get-del, get-empty}
use fragua_age.SafeMap
use fragua_age.SafeMap.{SafeMap, or_always, or_never}

-- One call of an exported method that reads or writes entries.
pub data Call (K V : Type 0) : Type 0 where
  load : K → Call K V
  store_and_delete : K → V → K → Call K V
  store : K → V → Option (V → Bool) → Call K V
  delete : K → Call K V
  compare_and_delete : K → Option (V → Bool) → Call K V
  load_or_store_fn : K → (Unit {0} → V) → Call K V

-- What a call returns: a value, if it has one, and a flag.
pub record Reply (V : Type 0) : Type 0 where
  pub value : Option V
  pub flag : Bool

-- No writer is inside its critical section: the readers' copy is the writers' map.
abbrev pub IsSynced : {K V : Type 0} → SafeMap K V → Type 0
IsSynced m = m.ro ≡ m.wo

-- The specification: a partial function from keys to values, changed at one key at a time.
abbrev pub Spec : Type 0 → Type 0 → Type 0
Spec K V = K → Option V

abbrev pub put : {K V : Type 0} → Discrete K → K → Option V → Spec K V → Spec K V
put dec k o s j = ite (dec k j) o (s j)

module _ {K V : Type 0} (dec : Discrete K) where
  pub call : Call K V → SafeMap K V → Reply V × SafeMap K V
  call (load k) m =
      (record { value = SafeMap.load dec m k; flag = is_some (SafeMap.load dec m k) }, m)
  call (store_and_delete k v d) m =
      (record { value = none; flag = false }, SafeMap.store_and_delete dec k v d m)
  call (store k v f) m =
      let (r, m') = SafeMap.store dec k v f m in (record { value = some r.0; flag = r.1 }, m')
  call (delete k) m = (record { value = none; flag = false }, SafeMap.delete dec k m)
  call (compare_and_delete k f) m =
      let (r, m') = SafeMap.compare_and_delete dec k f m in (record { value = none; flag = r }, m')
  call (load_or_store_fn k f) m =
      let (r, m') = SafeMap.load_or_store_fn dec k f m in
      (record { value = some r.0; flag = r.1 }, m')

  pub spec_call : Call K V → Spec K V → Reply V × Spec K V
  spec_call (load k) s = (record { value = s k; flag = is_some (s k) }, s)
  spec_call (store_and_delete k v d) s =
      (record { value = none; flag = false }, put dec d none (put dec k (some v) s))
  spec_call (store k v f) s =
      if is_some (s k) && not (or_always f (or_zero v (s k)))
      then (record { value = s k; flag = true }, s)
      else (record { value = some v; flag = is_some (s k) }, put dec k (some v) s)
  spec_call (delete k) s = (record { value = none; flag = false }, put dec k none s)
  spec_call (compare_and_delete k f) s = elim (s k) [
    | none ↦ (record { value = none; flag = false }, s)
    | some v ↦
        if or_never f v
        then (record { value = none; flag = true }, put dec k none s)
        else (record { value = none; flag = false }, s)
  ]
  spec_call (load_or_store_fn k f) s = elim (s k) [
    | none ↦ (record { value = some (f tt); flag = false }, put dec k (some (f tt)) s)
    | some v ↦ (record { value = some v; flag = true }, s)
  ]

  pub run : List (Call K V) → SafeMap K V → List (Reply V) × SafeMap K V
  run [] m = ([], m)
  run (c ∷ cs) m = let (r, m') = call c m in let (rs, m'') = run cs m' in (r ∷ rs, m'')

  pub spec_run : List (Call K V) → Spec K V → List (Reply V) × Spec K V
  spec_run [] s = ([], s)
  spec_run (c ∷ cs) s =
      let (r, s') = spec_call c s in let (rs, s'') = spec_run cs s' in (r ∷ rs, s'')

  -- The map stands for the function, and nobody is inside a critical section.
  pub record Implements (m : SafeMap K V) (s : Spec K V) : Type 0 where
    pub synced : IsSynced m
    pub agrees : (k : K) → GoMap.get dec m.wo k ≡ s k

  pub call-Implements :
      (c : Call K V) (m : SafeMap K V) (s : Spec K V)
      → Implements m s
      → ((call c m).0 ≡ (spec_call c s).0) × Implements (call c m).1 (spec_call c s).1
  unfolding call spec_call SafeMap.load SafeMap.store_and_delete SafeMap.store SafeMap.delete
      SafeMap.compare_and_delete SafeMap.load_or_store_fn SafeMap.update_read_only
  call-Implements (load k) m s h = (ground (arith, h.agrees k, h.synced), h)
  call-Implements (store_and_delete k v d) m s h = (
    refl,
    record {
      synced = refl;
      agrees = λ j.
          ground
            (arith, get-del dec (GoMap.set dec m.wo k v) d j, get-set dec m.wo k j v, h.agrees j);
    },
  )
  call-Implements (store k v f) m s h = (
    ground (arith, h.agrees k),
    record {
      synced = ground (arith, h.agrees k);
      agrees = λ j. ground (arith, h.agrees k, h.agrees j, get-set dec m.wo k j v);
    },
  )
  call-Implements (delete k) m s h = (
    refl,
    record { synced = refl; agrees = λ j. ground (arith, get-del dec m.wo k j, h.agrees j) },
  )
  call-Implements (compare_and_delete k f) m s h = (
    ground (arith, h.agrees k),
    record {
      synced = ground (arith, h.agrees k);
      agrees = λ j. ground (arith, h.agrees k, h.agrees j, get-del dec m.wo k j);
    },
  )
  call-Implements (load_or_store_fn k f) m s h = (
    ground (arith, h.agrees k),
    record {
      synced = ground (arith, h.agrees k);
      agrees = λ j. ground (arith, h.agrees k, h.agrees j, get-set dec m.wo k j (f tt));
    },
  )

  run-Implements :
      (cs : List (Call K V)) (m : SafeMap K V) (s : Spec K V)
      → Implements m s
      → ((run cs m).0 ≡ (spec_run cs s).0) × Implements (run cs m).1 (spec_run cs s).1
  unfolding run spec_run
  run-Implements [] m s h = (refl, h)
  run-Implements (c ∷ cs) m s h =
      let (e, h') = call-Implements c m s h in
      let (es, h'') = run-Implements cs (call c m).1 (spec_call c s).1 h' in
      (ground (arith, e, es), h'')

  new_safe_map-Implements : Implements SafeMap.new_safe_map (λ k. none)
  unfolding SafeMap.new_safe_map
  new_safe_map-Implements = record { synced = refl; agrees = λ k. get-empty dec k }

  -- Any history of calls of Load, Store, StoreAndDelete, Delete, CompareAndDelete and LoadOrStoreFn (without
  -- UnmarshalJSON, and without the readers of the whole map) on a new SafeMap returns what the same history returns on a partial function
  -- that is nowhere defined at first, and leaves the readers' copy equal to the writers' map.
  pub run-new_safe_map :
      (cs : List (Call K V))
      → ((run cs SafeMap.new_safe_map).0 ≡ (spec_run cs (λ k. none)).0)
        × IsSynced (run cs SafeMap.new_safe_map).1
  run-new_safe_map cs =
      let (e, h) = run-Implements cs SafeMap.new_safe_map (λ k. none) new_safe_map-Implements in
      (e, h.synced)

module _ {K V : Type 0} (decode : GoMap K V → GoMap K V × Bool) (m : SafeMap K V) where
  -- When the decoder fails and has changed the map before that, UnmarshalJSON leaves the readers' copy
  -- as it was, but the writers' map as the decoder left it, so that the two differ.
  pub unmarshal_json_failed :
      IsSynced m
      → (decode m.wo).1 ≡ true
      → (decode m.wo).0 ≢ m.wo
      → ((SafeMap.unmarshal_json decode m).1.ro ≡ m.ro)
        × ((SafeMap.unmarshal_json decode m).1.wo ≡ (decode m.wo).0)
        × ¬ IsSynced (SafeMap.unmarshal_json decode m).1
  unfolding SafeMap.unmarshal_json
  unmarshal_json_failed s failed wrote =
      (ground arith, ground arith, λ same. wrote (ground (arith, same)))
