-- ===== src/Advertisements/Search/Pages.antt =====
-- The pages of a search, and what a search that does not lock before it matches leaves out.
use fragua_age.Prelude.{
  ℕ, zero, suc, ◌+◌, ◌-◌, ◌^◌, ◌≤◌, ◌<◌, ◌≡◌, refl, ap, Bool, not, ◌||◌, All, Option, none, some,
  List, [], ◌∷◌, take, drop, length, arith, ◌==◌, if◌then◌else◌, length-drop,
}
use fragua_age.Prelude.Int.{ℤ, pos, negsuc, ℤ_discrete}
use fragua_age.Game.{Title}
use fragua_age.BattleServer.{BattleServers}
use fragua_age.Peer.{Peer}
use fragua_age.Advertisement.{Advertisement}
use fragua_age.Advertisements.{Advertisements}
use fragua_age.Advertisements.Valid.{Heap, Owns, Shows}
use fragua_age.OrderedMap.Iteration.{contents, readers-Implements}
use fragua_age.Json.{Json, array}
use fragua_age.Advertisement
use fragua_age.Advertisements.Search.{
  slice_result, page, locked_find_advertisements_encoded, collect,
}

module _ {A : Type 0} where
  take_all : (n : ℕ) (xs : List A) → length xs ≤ n → take n xs ≡ xs
  take_all zero [] h = refl
  take_all zero (x ∷ xs) h = absurd (omega arith)
  take_all (suc n) [] h = refl
  take_all (suc n) (x ∷ xs) h = ap (◌∷◌ x) (take_all n xs (omega arith))

  drop_all : (n : ℕ) (xs : List A) → length xs ≤ n → drop n xs ≡ []
  drop_all zero [] h = refl
  drop_all zero (x ∷ xs) h = absurd (omega arith)
  drop_all (suc n) [] h = refl
  drop_all (suc n) (x ∷ xs) h = drop_all n xs (omega arith)

  -- A count and an offset that are not negative give that window of the results, where their sum is below
  -- 2^63; a count of zero counts as the number of results there, and gives all from the offset on.
  pub page_window :
      (count offset : ℕ) (res : List A)
      → (if count == 0 then length res else count) + offset < 2 ^ 63
      → page (pos count) (pos offset) res
        ≡ some (if count == 0 then drop offset res else take count (drop offset res))
  unfolding page
  page_window count offset res h = ground (
    arith,
    drop_all offset res,
    length-drop offset res,
    take_all count (drop offset res),
    take_all (length res - offset) (drop offset res),
  )

  -- Where there is a result at the offset and the count is not zero, the slice is out of bounds if their
  -- sum overflows, if the count is negative, and if the offset is negative.
  pub page_panics :
      (count offset : ℕ) (res : List A)
      → offset < length res
      → 0 < count
      → 2 ^ 63 ≤ count + offset
      → (page (pos count) (pos offset) res ≡ none)
        × (page (negsuc count) (pos offset) res ≡ none)
        × (page (pos count) (negsuc offset) res ≡ none)
  unfolding page
  page_panics count offset res h h' big = (ground arith, ground arith, refl)

-- The matches behind some pointers that meet a condition, in order, and their encodings.
abbrev pub selected : Heap → (Advertisement → Bool) → List ℕ → List Advertisement
selected heap matches [] = []
selected heap matches (p ∷ ps) =
    let rest = selected heap matches ps in
    elim (heap p) [ none ↦ rest | some adv ↦ if matches adv then adv ∷ rest else rest ]

module _ (zero_peer : Peer) (title : Title) (battle_servers : BattleServers) where
  abbrev pub encode_each : List Advertisement → Option (List Json)
  encode_each [] = some []
  encode_each (adv ∷ advs) =
      let rest = encode_each advs in
      elim rest [
        | none ↦ none
        | some js ↦ elim (Advertisement.encode zero_peer title battle_servers adv) [
          | none ↦ none
          | some j ↦ some (array j ∷ js)
        ]
      ]

  abbrev pub returning : Advertisements → Option (List Json) → Option (List Json × Advertisements)
  returning s none = none
  returning s (some js) = some (js, s)

  collect-selected :
      (pre : Bool) (matches : Advertisement → Bool) (s : Advertisements) (es : List (ℤ × ℕ))
      → All (Owns s.heap) es
      → collect zero_peer title battle_servers pre matches (contents es) s
        ≡ returning s (encode_each (selected s.heap (λ adv. not pre || matches adv) (contents es)))
  unfolding collect
  collect-selected pre matches s [] o = refl
  collect-selected pre matches s ((j, p) ∷ es) o =
      ground (arith, o.0.at, collect-selected pre matches s es o.1)

  -- In a valid state a search yields that page of the encodings of exactly the matches that meet the
  -- condition, in the order in which they were stored, or panics if one of them has no encoding or the
  -- page is out of bounds. Where the search is told not to lock before it matches, every match counts
  -- as meeting the condition.
  pub search-selected :
      (count offset : ℤ) (pre : Bool) (matches : Advertisement → Bool) (s : Advertisements)
      (es : List (ℤ × ℕ))
      → Shows s es
      → locked_find_advertisements_encoded zero_peer battle_servers title count offset pre matches s
        ≡ elim (encode_each (selected s.heap (λ adv. not pre || matches adv) (contents es))) [
          | none ↦ none
          | some js ↦ returning s (page count offset js)
        ]
  unfolding locked_find_advertisements_encoded slice_result
  search-selected count offset pre matches s es v = ground (
    arith,
    (readers-Implements ℤ_discrete 0 s.store es v.stored).1,
    collect-selected pre matches s es v.owned,
  )
