-- ===== src/Tests/Persistent.antt =====
-- The theorem on persistent data at a concrete input.
use Prim.Native.String.{String}
use fragua_age.Prelude.{ℕ, ◌≡◌, refl, sym, Bool, false, some, [], ◌∷◌, ◌+◌}
use fragua_age.Prelude.Int.{String_discrete}
use fragua_age.GoMap
use fragua_age.GoMap.{GoMap}
use fragua_age.SafeMap
use fragua_age.PersistentData.{
  Versioned, Codec, PersistentMap, new_persistent_string_map, set, with_read_write, value_at,
}
use fragua_age.PersistentData.Reloading.{with_read_write-reloaded}

abbrev numbers : Codec ℕ ℕ
numbers = record { encode = λ n. some n; decode = λ n. some n }

abbrev one_entry : GoMap String (Versioned ℕ)
one_entry = record { entries = ("stats", record { version = 0; body = 3 }) ∷ [] }

-- The key has the data 3, in the file too.
abbrev stored : PersistentMap ℕ ℕ
stored = record {
  file = record { version = 0; body = one_entry };
  cached_raw_data = record { wo = one_entry; ro = one_entry };
  current_data = record { wo = one_entry; ro = one_entry };
}

abbrev add_one : ℕ → ℕ × Bool
add_one n = (n + 1, false)

stored-load :
    SafeMap.load String_discrete stored.current_data "stats"
    ≡ some (record { version = 0; body = 3 })
unfolding SafeMap.load GoMap.get String_discrete
stored-load = refl

with_read_write-reloaded_example :
    (t u w : PersistentMap ℕ ℕ) × (with_read_write numbers "stats" add_one stored ≡ (false, t))
    × (value_at numbers "stats" t ≡ some 4)
    × (new_persistent_string_map (some t.file) ≡ some u)
    × (set numbers "stats" 0 u ≡ (false, w))
    × (value_at numbers "stats" w ≡ some 4)
with_read_write-reloaded_example =
    with_read_write-reloaded numbers "stats" add_one 0 stored 3 4 (λ x r h. sym h) stored-load refl
      refl
