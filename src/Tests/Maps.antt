-- ===== src/Tests/Maps.antt =====
-- The theorems on the maps and on the pages of a search, applied.
use fragua_age.Prelude.{ℕ, ◌≡◌, none, some, List, [], ◌∷◌, take, drop, arith, ℕ_discrete}
use fragua_age.Prelude.Int.{pos}
use fragua_age.SafeMap
use fragua_age.SafeMap.{SafeMap}
use fragua_age.SafeMap.Refinement.{IsSynced, run-new_safe_map, unmarshal_json_failed}
use fragua_age.OrderedMap
use fragua_age.OrderedMap.{OrderedMap}
use fragua_age.Advertisements.Search.{page}
use fragua_age.Advertisements.Search.Pages.{page_window}
use fragua_age.OrderedMap.Refinement.{
  spec_store, Implements, lookup, new-Implements, store-Implements,
}
use fragua_age.OrderedMap.Iteration.{readers-Implements}
use fragua_age.OrderedMap.History
use fragua_age.OrderedMap.History.{run-new_ordered_map}
use fragua_age.SafeMap.Refinement

abbrev numbers : List ℕ
numbers = 1 ∷ 2 ∷ 3 ∷ 4 ∷ []

page_window_example : page (pos 2) (pos 1) numbers ≡ some (take 2 (drop 1 numbers))
page_window_example = page_window 2 1 numbers (omega arith)

abbrev ordered_calls : List (History.Call ℕ ℕ)
ordered_calls =
    History.Call.store 3 30 none ∷ History.Call.store 4 40 none ∷ History.Call.delete 3 ∷ []

run-new_ordered_map_example :
    (m : OrderedMap ℕ ℕ) × (History.run ℕ_discrete ordered_calls OrderedMap.new_ordered_map
      ≡ some ((History.spec_run ℕ_discrete ordered_calls []).0, m))
    × Implements ℕ_discrete m (History.spec_run ℕ_discrete ordered_calls []).1
run-new_ordered_map_example = run-new_ordered_map ℕ_discrete ordered_calls

abbrev one_entry : OrderedMap ℕ ℕ
one_entry = (OrderedMap.store ℕ_discrete 3 30 none OrderedMap.new_ordered_map).1

one_entry-Implements : Implements ℕ_discrete one_entry ((3, 30) ∷ [])
unfolding spec_store
one_entry-Implements =
    (store-Implements ℕ_discrete OrderedMap.new_ordered_map [] (new-Implements ℕ_discrete) 3 30
      none).1

readers-Implements_example :
    (OrderedMap.iter ℕ_discrete 0 one_entry ≡ (1, (3, 30) ∷ []))
    × (OrderedMap.values ℕ_discrete 0 one_entry ≡ (1, 30 ∷ []))
    × (OrderedMap.keys one_entry ≡ (1, 3 ∷ []))
    × (OrderedMap.len one_entry ≡ 1)
    × (OrderedMap.first ℕ_discrete 0 one_entry ≡ some (3, 30))
    × ((k : ℕ) → OrderedMap.load ℕ_discrete one_entry k ≡ lookup ℕ_discrete k ((3, 30) ∷ []))
readers-Implements_example =
    readers-Implements ℕ_discrete 0 one_entry ((3, 30) ∷ []) one_entry-Implements

abbrev safe_calls : List (SafeMap.Refinement.Call ℕ ℕ)
safe_calls =
    SafeMap.Refinement.Call.store 3 30 none
    ∷ SafeMap.Refinement.Call.store_and_delete 4 40 3
    ∷ SafeMap.Refinement.Call.load 3
    ∷ []

run-new_safe_map_example :
    ((SafeMap.Refinement.run ℕ_discrete safe_calls SafeMap.new_safe_map).0
      ≡ (SafeMap.Refinement.spec_run ℕ_discrete safe_calls (λ k. none)).0)
    × IsSynced (SafeMap.Refinement.run ℕ_discrete safe_calls SafeMap.new_safe_map).1
run-new_safe_map_example = run-new_safe_map ℕ_discrete safe_calls
