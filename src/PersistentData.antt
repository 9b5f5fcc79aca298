-- ===== src/PersistentData.antt =====
-- server/internal/models/persistentJsonData.go: the values of a user by key, which a file holds too. `R` is
-- the raw JSON of a value, and `V` its decoded form; a file is what it decodes to. The one upgrader of the
-- repository has version 0 and upgrades nothing. Errors of the file system are not modelled.
pub mod Reloading
use Prim.Native.String.{String}
use fragua_age.Prelude.{ℕ, Bool, true, false, Option, none, some, ltb, if◌then◌else◌}
use fragua_age.Prelude.Int.{String_discrete}
use fragua_age.GoMap
use fragua_age.GoMap.{GoMap}
use fragua_age.SafeMap
use fragua_age.SafeMap.{SafeMap}

-- jsonDataWithMetadata and jsonAnyDataWithMetadata
pub record Versioned (T : Type 0) : Type 0 where
  pub version : ℕ
  pub body : T

-- json.Marshal and json.Unmarshal of values
pub record Codec (R V : Type 0) : Type 0 where
  pub encode : V → Option R
  pub decode : R → Option V

-- What a file holds: a version, and the values by their keys.
abbrev pub File : Type 0 → Type 0
File R = Versioned (GoMap String (Versioned R))

-- PersistentStringJsonMap
pub record PersistentMap (R V : Type 0) : Type 0 where
  pub file : File R
  pub cached_raw_data : SafeMap String (Versioned R)
  pub current_data : SafeMap String (Versioned V)

module _ {R V : Type 0} where
  -- file.WithWriter of the cached data
  written : PersistentMap R V → PersistentMap R V
  written s = record s {
    file = record { version = 0; body = SafeMap.marshal_json (λ m. m) s.cached_raw_data };
  }

  opened : File R → PersistentMap R V
  opened file = record {
    file = file;
    cached_raw_data = record { wo = file.body; ro = file.body };
    current_data = SafeMap.new_safe_map;
  }

  -- NewPersistentStringMap: a file that is not there is made; one of a newer version is an error
  unfoldable pub new_persistent_string_map : Option (File R) → Option (PersistentMap R V)
  unfolding written opened
  new_persistent_string_map none =
      some (written (opened (record { version = 0; body = GoMap.empty })))
  new_persistent_string_map (some file) = if ltb 0 file.version then none else some (opened file)

module _ {R V : Type 0} (codec : Codec R V) where
  cache : String → ℕ → PersistentMap R V → Option R → Bool × PersistentMap R V
  unfolding written
  cache key version s none = (true, s)
  cache key version s (some raw) =
      let entry : Versioned R = record { version = version; body = raw } in
      let stored =
        (SafeMap.store String_discrete key entry (some (λ _. true)) s.cached_raw_data).1 in
      (false, written (record s { cached_raw_data = stored }))

  -- The end of psmjSet, for the data and whether they go to the cache.
  set_current : String → V → Bool → PersistentMap R V → Bool × PersistentMap R V
  unfolding cache
  set_current key value save s =
      let entry : Versioned V = record { version = 0; body = value } in
      let (r, stored) =
        SafeMap.store String_discrete key entry (some (λ _. false)) s.current_data in
      let s' : PersistentMap R V = record s { current_data = stored } in
      if r.1 then (true, s) else (if save then cache key 0 s' (codec.encode value) else (false, s'))

  set_decoded : String → PersistentMap R V → Option V → Bool × PersistentMap R V
  unfolding set_current
  set_decoded key s none = (true, s)
  set_decoded key s (some value) = set_current key value false s

  -- psmjSet: whether it fails, and the map
  unfoldable pub set : String → V → PersistentMap R V → Bool × PersistentMap R V
  unfolding set_current set_decoded
  set key default s = elim (SafeMap.load String_discrete s.cached_raw_data key) [
    | none ↦ set_current key default true s
    | some current ↦
        if ltb 0 current.version then (true, s) else set_decoded key s (codec.decode current.body)
  ]

  -- The data are behind a pointer: a change is seen also if the function fails.
  changed : String → Versioned V → V → PersistentMap R V → PersistentMap R V
  changed key full value s =
      let entry : Versioned V = record { version = full.version; body = value } in
      record s {
        current_data =
            (SafeMap.store String_discrete key entry (some (λ _. true)) s.current_data).1;
      }

  read_write_found :
      String → (V → V × Bool) → PersistentMap R V → Option (Versioned V) → Bool × PersistentMap R V
  unfolding changed cache
  read_write_found key fn s none = (true, s)
  read_write_found key fn s (some full) =
      let (value, failed) = fn full.body in
      let s' = changed key full value s in
      if failed then (true, s') else cache key full.version s' (codec.encode value)

  -- psmjWithReadWrite; `fn` is what the function makes of the data, and whether it fails
  unfoldable pub with_read_write :
      String → (V → V × Bool) → PersistentMap R V → Bool × PersistentMap R V
  unfolding read_write_found
  with_read_write key fn s =
      read_write_found key fn s (SafeMap.load String_discrete s.current_data key)

  -- the data of a key, as psmjWithReadOnly hands them to its function
  unfoldable pub value_at : String → PersistentMap R V → Option V
  value_at key s = elim (SafeMap.load String_discrete s.current_data key) [
    | none ↦ none
    | some full ↦ some full.body
  ]
