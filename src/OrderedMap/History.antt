-- ===== src/OrderedMap/History.antt =====
-- Histories of calls on a SafeOrderedMap.
use fragua_age.Prelude.{arith, ◌≡◌, refl, Bool, Option, none, some, List, [], ◌∷◌}
use fragua_age.OrderedMap
use fragua_age.OrderedMap.{OrderedMap}
use fragua_age.OrderedMap.Refinement.{
  Implements, spec_store, spec_delete, new-Implements, store-Implements, delete-Implements,
}

pub data Call (K V : Type 0) : Type 0 where
  store : K → V → Option (V → Bool) → Call K V
  delete : K → Call K V

pub data Reply (V : Type 0) : Type 0 where
  stored : Bool × V → Reply V
  deleted : Bool → Reply V

module _ {K V : Type 0} (dec : Discrete K) where
  pub call : Call K V → OrderedMap K V → Option (Reply V × OrderedMap K V)
  call (store k v f) m = let (r, m') = OrderedMap.store dec k v f m in some (stored r, m')
  call (delete k) m = elim (OrderedMap.delete dec k m) [
    | none ↦ none
    | some (b, m') ↦ some (deleted b, m')
  ]

  pub spec_call : Call K V → List (K × V) → Reply V × List (K × V)
  spec_call (store k v f) l = let (r, l') = spec_store dec k v f l in (stored r, l')
  spec_call (delete k) l = let (b, l') = spec_delete dec k l in (deleted b, l')

  pub run : List (Call K V) → OrderedMap K V → Option (List (Reply V) × OrderedMap K V)
  run [] m = some ([], m)
  run (c ∷ cs) m = elim (call c m) [
    | none ↦ none
    | some (r, m') ↦ elim (run cs m') [ none ↦ none | some (rs, m'') ↦ some (r ∷ rs, m'') ]
  ]

  pub spec_run : List (Call K V) → List (K × V) → List (Reply V) × List (K × V)
  spec_run [] l = ([], l)
  spec_run (c ∷ cs) l =
      let (r, l') = spec_call c l in let (rs, l'') = spec_run cs l' in (r ∷ rs, l'')

  call-Implements :
      (c : Call K V) (m : OrderedMap K V) (l : List (K × V))
      → Implements dec m l
      → (m' : OrderedMap K V) × (call c m ≡ some ((spec_call c l).0, m'))
        × Implements dec m' (spec_call c l).1
  unfolding call spec_call
  call-Implements (store k v f) m l h =
      let (e, h') = store-Implements dec m l h k v f in
      ((OrderedMap.store dec k v f m).1, ground (arith, e), h')
  call-Implements (delete k) m l h =
      let (m', e, h') = delete-Implements dec m l h k in (m', ground (arith, e), h')

  pub run-Implements :
      (cs : List (Call K V)) (m : OrderedMap K V) (l : List (K × V))
      → Implements dec m l
      → (m' : OrderedMap K V) × (run cs m ≡ some ((spec_run cs l).0, m'))
        × Implements dec m' (spec_run cs l).1
  unfolding run spec_run
  run-Implements [] m l h = (m, refl, h)
  run-Implements (c ∷ cs) m l h =
      let (m', e, h') = call-Implements c m l h in
      let (m'', e', h'') = run-Implements cs m' (spec_call c l).1 h' in (m'', rw (e, run, e'), h'')

  -- Any history of Store and Delete calls on a new SafeOrderedMap runs to its end with no panic,
  -- returns what the association list returns, and leaves a map that holds the list's entries in
  -- order, each key once, with the right index for every key and a readers' copy that is up to date.
  pub run-new_ordered_map :
      (cs : List (Call K V))
      → (m : OrderedMap K V) × (run cs OrderedMap.new_ordered_map ≡ some ((spec_run cs []).0, m))
        × Implements dec m (spec_run cs []).1
  run-new_ordered_map cs = run-Implements cs OrderedMap.new_ordered_map [] (new-Implements dec)
