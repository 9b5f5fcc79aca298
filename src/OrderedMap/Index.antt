-- ===== src/OrderedMap/Index.antt =====
-- Positions of keys in a list, and association lists in order: what the proofs about SafeOrderedMap
-- need of them.
use fragua_age.Prelude.{
  ℕ, zero, suc, ◌≡◌, refl, ite, Option, none, some, List, [], ◌∷◌, ◌++◌, length, arith, ap,
}
use fragua_age.OrderedMap.{delete_at, shift_down}

abbrev pub Option-map {ℓ κ} : {A : Type ℓ} {B : Type κ} → (A → B) → Option A → Option B
Option-map f none = none
Option-map f (some a) = some (f a)

module _ {K V : Type 0} where
  abbrev pub names : List (K × V) → List K
  names [] = []
  names ((k, v) ∷ l) = k ∷ names l

  pub length-names : (l : List (K × V)) → length (names l) ≡ length l
  length-names [] = refl
  length-names ((k, v) ∷ l) = ap suc (length-names l)

  pub names-append :
      (l : List (K × V)) (k : K) (v : V) → names (l ++ (k, v) ∷ []) ≡ names l ++ k ∷ []
  names-append [] k v = refl
  names-append ((j, w) ∷ l) k v = ap (◌∷◌ j) (names-append l k v)

module _ {K : Type 0} (dec : Discrete K) where
  -- The position of a key.
  abbrev pub index_of : K → List K → Option ℕ
  index_of k [] = none
  index_of k (j ∷ l) = ite (dec j k) (some 0) (Option-map suc (index_of k l))

  abbrev pub remove : K → List K → List K
  remove k [] = []
  remove k (j ∷ l) = let rest = remove k l in ite (dec j k) rest (j ∷ rest)

  abbrev pub Distinct : List K → Type 0
  Distinct [] = Unit {0}
  Distinct (k ∷ l) = (index_of k l ≡ none) × Distinct l

  pub index-append :
      (j k : K) (l : List K)
      → index_of j (l ++ k ∷ [])
        ≡ elim (index_of j l) [ none ↦ ite (dec k j) (some (length l)) none | some i ↦ some i ]
  index-append j k [] = ground arith
  index-append j k (i ∷ l) = ground (arith, index-append j k l)

  pub Distinct-append :
      (k : K) (l : List K) → Distinct l → index_of k l ≡ none → Distinct (l ++ k ∷ [])
  Distinct-append k [] d e = (refl, tt)
  Distinct-append k (i ∷ l) d e =
      (ground (arith, index-append i k l), Distinct-append k l d.1 (ground arith))

  pub remove_absent : (k : K) (l : List K) → index_of k l ≡ none → remove k l ≡ l
  remove_absent k [] e = refl
  remove_absent k (i ∷ l) e = ground (arith, remove_absent k l)

  remove-index-none : (j k : K) (l : List K) → index_of j l ≡ none → index_of j (remove k l) ≡ none
  remove-index-none j k [] e = refl
  remove-index-none j k (x ∷ l) e = ground (arith, remove-index-none j k l)

  pub index-remove :
      (j k : K) (l : List K) (i : ℕ)
      → Distinct l
      → index_of k l ≡ some i
      → index_of j (remove k l) ≡ ite (dec k j) none (Option-map (shift_down i) (index_of j l))
  index-remove j k [] i d e = ground arith
  index-remove j k (x ∷ l) zero d e = ground (arith, remove_absent k l, remove-index-none j k l)
  index-remove j k (x ∷ l) (suc i) d e = ground (arith, index-remove j k l i d.1)

  pub delete_at-index :
      (k : K) (l : List K) (i : ℕ)
      → Distinct l
      → index_of k l ≡ some i
      → delete_at l i ≡ some (remove k l)
  unfolding delete_at
  delete_at-index k [] i d e = ground arith
  delete_at-index k (x ∷ l) zero d e = ground (arith, remove_absent k l)
  delete_at-index k (x ∷ l) (suc i) d e = ground (arith, delete_at-index k l i d.1)

  pub Distinct-remove : (k : K) (l : List K) → Distinct l → Distinct (remove k l)
  Distinct-remove k [] d = tt
  Distinct-remove k (x ∷ l) d = ground (arith, remove-index-none x k l, Distinct-remove k l d.1)
