-- ===== src/SafeMap.antt =====
-- server/internal/Map.go, SafeMap and SafeSet: a map that writers change under a lock, with a
-- read-only copy that readers load without one. A method is one critical section: it takes the
-- state and returns its results beside the new state. The order of a `range` over a Go map is the
-- parameter of the two iterators.
pub mod Refinement
use fragua_age.Prelude.{Bool, true, false, not, Option, none, some, List, map, if◌then◌else◌, ℕ}
use fragua_age.GoMap
use fragua_age.GoMap.{GoMap}

pub record SafeMap (K V : Type 0) : Type 0 where
  -- the map that writers change
  pub wo : GoMap K V
  -- the copy that readers load
  pub ro : GoMap K V

-- the callbacks that may be nil in Go, with what each then stands for
abbrev pub or_always : {V : Type 0} → Option (V → Bool) → V → Bool
or_always none v = true
or_always (some f) v = f v

abbrev pub or_never : {V : Type 0} → Option (V → Bool) → V → Bool
or_never none v = false
or_never (some f) v = f v

module _ {K V : Type 0} where
  -- m.ro.Store(maps.Clone(m.wo)): values are shared, so the clone is the map itself
  unfoldable pub update_read_only : SafeMap K V → SafeMap K V
  update_read_only m = record m { ro = m.wo }

  -- NewSafeMap
  unfoldable pub new_safe_map : SafeMap K V
  unfolding update_read_only
  new_safe_map = update_read_only (record { wo = GoMap.empty; ro = GoMap.empty })

  unfoldable pub len : SafeMap K V → ℕ
  len m = GoMap.len m.ro

  -- `range` gives the entries in the order that the runtime chose
  unfoldable pub iter : (GoMap K V → List (K × V)) → SafeMap K V → List (K × V)
  iter range m = range m.ro

  unfoldable pub values : (GoMap K V → List (K × V)) → SafeMap K V → List V
  values range m = map (λ e. e.1) (range m.ro)

  -- `encode` stands for json.Marshal
  unfoldable pub marshal_json : {R : Type 0} → (GoMap K V → R) → SafeMap K V → R
  marshal_json encode m = encode m.wo

  -- `decode` stands for json.Unmarshal of the bytes into the map: what it leaves in the map, and
  -- whether it failed
  unfoldable pub unmarshal_json : (GoMap K V → GoMap K V × Bool) → SafeMap K V → Bool × SafeMap K V
  unfolding update_read_only
  unmarshal_json decode m =
      let (wo, failed) = decode m.wo in
      let m' : SafeMap K V = record m { wo = wo } in
      if failed then (true, m') else (false, update_read_only m')

module _ {K V : Type 0} (dec : Discrete K) where
  unfoldable pub load : SafeMap K V → K → Option V
  load m key = GoMap.get dec m.ro key

  unfoldable pub store_and_delete : K → V → K → SafeMap K V → SafeMap K V
  unfolding update_read_only
  store_and_delete store_key store_value delete_key m =
      update_read_only
        (record m { wo = GoMap.del dec (GoMap.set dec m.wo store_key store_value) delete_key })

  -- the results are the stored value and whether the key existed
  unfoldable pub store : K → V → Option (V → Bool) → SafeMap K V → (V × Bool) × SafeMap K V
  unfolding update_read_only
  store key value replace m = elim (GoMap.get dec m.wo key) [
    | none ↦ ((value, false), update_read_only (record m { wo = GoMap.set dec m.wo key value }))
    | some stored ↦
        if or_always replace stored
        then ((value, true), update_read_only (record m { wo = GoMap.set dec m.wo key value }))
        else ((stored, true), m)
  ]

  unfoldable pub delete : K → SafeMap K V → SafeMap K V
  unfolding update_read_only
  delete key m = update_read_only (record m { wo = GoMap.del dec m.wo key })

  unfoldable pub compare_and_delete : K → Option (V → Bool) → SafeMap K V → Bool × SafeMap K V
  unfolding update_read_only
  compare_and_delete key compare_func m = elim (GoMap.get dec m.wo key) [
    | none ↦ (false, m)
    | some current ↦
        if or_never compare_func current
        then (true, update_read_only (record m { wo = GoMap.del dec m.wo key }))
        else (false, m)
  ]

  -- the results are the actual value and whether it was loaded
  unfoldable pub load_or_store_fn : K → (Unit {0} → V) → SafeMap K V → (V × Bool) × SafeMap K V
  unfolding update_read_only
  load_or_store_fn key value_fn m = elim (GoMap.get dec m.wo key) [
    | none ↦
        let value = value_fn tt in
        ((value, false), update_read_only (record m { wo = GoMap.set dec m.wo key value }))
    | some actual ↦ ((actual, true), m)
  ]

-- SafeSet[V]: a SafeMap whose values are `any(nil)`; a nil *SafeSet is `none`.
abbrev pub SafeSet : Type 0 → Type 0
SafeSet V = SafeMap V (Unit {0})

module _ {V : Type 0} where
  unfoldable pub new_safe_set : SafeSet V
  unfolding new_safe_map
  new_safe_set = new_safe_map

  unfoldable pub set_len : Option (SafeSet V) → ℕ
  unfolding len
  set_len none = 0
  set_len (some s) = len s

  module _ (dec : Discrete V) where
    unfoldable pub set_delete : V → SafeSet V → Bool × SafeSet V
    unfolding compare_and_delete
    set_delete value s = compare_and_delete dec value (some (λ _. true)) s

    unfoldable pub set_store : V → SafeSet V → Bool × SafeSet V
    unfolding store
    set_store value s = let (r, s') = store dec value tt (some (λ _. false)) s in (not r.1, s')
