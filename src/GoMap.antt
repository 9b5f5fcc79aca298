-- ===== src/GoMap.antt =====
-- Go's built-in map. A client sees `get`, `set`, `del`, `map_values` and `len` through their laws.
-- Go leaves the order of a `range` over a map open: `entries` is one order that it may take.
use fragua_age.Prelude.{ℕ, ◌≡◌, refl, ite, Option, none, some, List, [], ◌∷◌, arith, length}

pub record GoMap (K V : Type 0) : Type 0 where
  pub entries : List (K × V)

module _ {K V : Type 0} where
  -- make(map[K]V)
  unfoldable pub empty : GoMap K V
  empty = record { entries = [] }

  -- len(m)
  unfoldable pub len : GoMap K V → ℕ
  len m = length m.entries

  revalue : (V → V) → List (K × V) → List (K × V)
  revalue f [] = []
  revalue f ((k, v) ∷ l) = (k, f v) ∷ revalue f l

  -- for k, v := range m { m[k] = f(v) }
  unfoldable pub map_values : (V → V) → GoMap K V → GoMap K V
  unfolding revalue
  map_values f m = record { entries = revalue f m.entries }

module _ {K V : Type 0} (dec : Discrete K) where
  find : K → List (K × V) → Option V
  find k [] = none
  find k ((j, v) ∷ l) = ite (dec j k) (some v) (find k l)

  without : K → List (K × V) → List (K × V)
  without k [] = []
  without k ((j, v) ∷ l) = let rest = without k l in ite (dec j k) rest ((j, v) ∷ rest)

  -- value, ok := m[k]
  unfoldable pub get : GoMap K V → K → Option V
  unfolding find
  get m k = find k m.entries

  -- delete(m, k)
  unfoldable pub del : GoMap K V → K → GoMap K V
  unfolding without
  del m k = record { entries = without k m.entries }

  -- m[k] = v
  unfoldable pub set : GoMap K V → K → V → GoMap K V
  unfolding without
  set m k v = record { entries = (k, v) ∷ without k m.entries }

  find-without : (k j : K) (l : List (K × V)) → find j (without k l) ≡ ite (dec k j) none (find j l)
  unfolding find without
  find-without k j [] = ground arith
  find-without k j ((i, v) ∷ l) = ground (arith, find-without k j l)

  pub get-empty : (k : K) → get empty k ≡ none
  unfolding get empty
  get-empty k = refl

  pub get-del : (m : GoMap K V) (k j : K) → get (del m k) j ≡ ite (dec k j) none (get m j)
  unfolding get del
  get-del m k j = find-without k j m.entries

  pub get-set :
      (m : GoMap K V) (k j : K) (v : V) → get (set m k v) j ≡ ite (dec k j) (some v) (get m j)
  unfolding get set
  get-set m k j v = ground (arith, find-without k j m.entries)

  find-revalue :
      (f : V → V) (k : K) (l : List (K × V))
      → find k (revalue f l) ≡ elim (find k l) [ none ↦ none | some v ↦ some (f v) ]
  unfolding find revalue
  find-revalue f k [] = refl
  find-revalue f k ((j, v) ∷ l) = ground (arith, find-revalue f k l)

  pub get-map_values :
      (f : V → V) (m : GoMap K V) (k : K)
      → get (map_values f m) k ≡ elim (get m k) [ none ↦ none | some v ↦ some (f v) ]
  unfolding get map_values
  get-map_values f m k = find-revalue f k m.entries
