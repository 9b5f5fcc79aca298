-- ===== src/Items/Changing.antt =====
-- server/internal/routes/game/item: detachItems.go, moveItem.go, updateItemAttributes.go and
-- createItemLoadout.go, for a request that binds and the user of the session, who is `none` if unknown.
-- Writing the items to their file is not modelled; its errors are ignored by the code.
pub mod Versions
pub mod Slots
use Prim.Native.String.{String}
use fragua_age.Prelude.{
  ℕ, suc, Bool, true, false, not, ◌&&◌, ◌||◌, ◌==◌, Option, none, some, List, [], ◌∷◌, map, length,
  is_some, if◌then◌else◌,
}
use fragua_age.Prelude.Int.{ℤ, pos, negsuc, eq_ℤ, ℤ_discrete}
use fragua_age.Json.{Json, num, str, nat, array}
use fragua_age.GoMap
use fragua_age.GoMap.{GoMap}
use fragua_age.User.{Runtime}
use fragua_age.Items.{
  Entry, Item, ItemMetadata, encode, set_location_id, set_durability_count, increment_version,
  update_other, update_attribute,
}

abbrev pub Items : Type 0
Items = GoMap ℤ Item

-- the responses without a result
abbrev pub refused : List Json
refused = nat 2 ∷ array [] ∷ array [] ∷ []

-- What a handler writes: the error codes and the encoded items of one entry each.
abbrev pub Results : Type 0
Results = List (Json × Json)

abbrev pub written : Results → List Json
written rs = nat 0 ∷ array (map (λ r. r.0) rs) ∷ array (map (λ r. r.1) rs) ∷ []

abbrev pub unless : Bool → (Item → Item) → Item → Item
unless c f item = if c then item else f item

module _ (marshal : GoMap String Entry → String) (user : ℤ) where
  abbrev pub detached : ℤ → ℤ → Item → Item
  detached location count item = increment_version (
      unless (eq_ℤ count (negsuc 0)) (set_durability_count count)
        (unless (eq_ℤ location (negsuc 0)) (set_location_id location) item))

  -- the loop of DetachItems, for lists of one length
  unfoldable pub detach_all : List ℤ → List ℤ → List ℤ → Items → Results × Items
  detach_all (id ∷ ids) (location ∷ locations) (count ∷ counts) items =
      elim (GoMap.get ℤ_discrete items id) [
        | none ↦
            let (rs, items') = detach_all ids locations counts items in
            ((nat 2, array []) ∷ rs, items')
        | some item ↦
            let item' = detached location count item in
            let (rs, items') =
              detach_all ids locations counts (GoMap.set ℤ_discrete items id item') in
            ((nat 0, array (encode marshal user item')) ∷ rs, items')
      ]
  detach_all _ _ _ items = ([], items)

  detach_known : List ℤ → List ℤ → List ℤ → Items → List Json × Items
  unfolding detach_all
  detach_known ids locations counts items =
      let (rs, items') = detach_all ids locations counts items in (written rs, items')

  -- DetachItems
  unfoldable pub detach_items : Bool → List ℤ → List ℤ → List ℤ → Items → List Json × Items
  unfolding detach_known
  detach_items known ids locations counts items =
      if (not (length ids == 0))
        && ((length ids == length locations) && (length ids == length counts))
      then (if known then detach_known ids locations counts items else (refused, items))
      else (refused, items)

  slotted : Runtime → ℤ → Item → Option Item
  slotted go slot item = elim (update_other "eslot" (str (go.itoa slot)) item.metadata) [
    | none ↦ none
    | some metadata ↦ some (record item { metadata = metadata })
  ]

  placed : Runtime → ℤ → Item → Option Item
  unfolding slotted
  placed go slot item = elim (if eq_ℤ slot (negsuc 0) then some item else slotted go slot item) [
    | none ↦ none
    | some item' ↦ some (increment_version item')
  ]

  -- MoveItem's change of one item: the position is ignored
  moved : Runtime → ℤ → ℤ → Item → Option Item
  unfolding placed
  moved go location slot item =
      placed go slot (unless (eq_ℤ location (negsuc 0)) (set_location_id location) item)

  answered : Json × Json → Option (Results × Items) → Option (Results × Items)
  answered r none = none
  answered r (some (rs, items)) = some (r ∷ rs, items)

  -- the loop of MoveItem, for lists of one length; `none` is a write to a nil map
  unfoldable pub move_all : Runtime → List ℤ → List ℤ → List ℤ → Items → Option (Results × Items)
  unfolding moved answered
  move_all go (id ∷ ids) (location ∷ locations) (slot ∷ slots) items =
      elim (GoMap.get ℤ_discrete items id) [
        | none ↦ answered (nat 2, array []) (move_all go ids locations slots items)
        | some item ↦ elim (moved go location slot item) [
          | none ↦ none
          | some item' ↦
              answered (nat 0, array (encode marshal user item'))
                (move_all go ids locations slots (GoMap.set ℤ_discrete items id item'))
        ]
      ]
  move_all go _ _ _ items = some ([], items)

  written_of : Option (Results × Items) → Option (List Json × Items)
  written_of none = none
  written_of (some (rs, items)) = some (written rs, items)

  -- MoveItem
  unfoldable pub move_item :
      Runtime → Bool → List ℤ → List ℤ → List ℤ → List ℤ → Items → Option (List Json × Items)
  unfolding move_all written_of
  move_item go known ids locations positions slots items =
      if (not (length ids == 0))
        && ((length ids == length locations)
            && ((length ids == length positions) && (length ids == length slots)))
      then (if known
          then written_of (move_all go ids locations slots items)
          else some (refused, items))
      else some (refused, items)

  -- the loop over the keys and the values
  update_attributes : List String → List String → ItemMetadata → Option ItemMetadata
  update_attributes (key ∷ keys) (value ∷ values) m = elim (update_attribute key value m) [
    | none ↦ none
    | some m' ↦ update_attributes keys values m'
  ]
  update_attributes _ _ m = some m

  repeated : {A B : Type 0} → A → List B → List A
  repeated a [] = []
  repeated a (b ∷ bs) = a ∷ repeated a bs

  codes : ℕ → List String → Json
  unfolding repeated
  codes code keys = array (nat code ∷ array (repeated (array (nat code ∷ [])) keys) ∷ [])

  update_all : List String → List String → List ℤ → Items → Option (Results × Items)
  unfolding answered update_attributes codes
  update_all keys values [] items = some ([], items)
  update_all keys values (id ∷ ids) items = elim (GoMap.get ℤ_discrete items id) [
    | none ↦ answered (codes 2 keys, array []) (update_all keys values ids items)
    | some item ↦ elim (update_attributes keys values item.metadata) [
      | none ↦ none
      | some metadata ↦
          let item' = increment_version (record item { metadata = metadata }) in
          answered (codes 0 keys, array (encode marshal user item'))
            (update_all keys values ids (GoMap.set ℤ_discrete items id item'))
    ]
  ]

  -- UpdateItemAttributes
  unfoldable pub update_item_attributes :
      Bool → List String → List String → List ℤ → List ℤ → Items → Option (List Json × Items)
  unfolding update_all written_of
  update_item_attributes known keys values ids xp_gains items =
      if (not (length ids == 0))
        && ((length ids == length keys)
            && ((length ids == length values) && (length ids == length xp_gains)))
      then (if known then written_of (update_all keys values ids items) else some (refused, items))
      else some (refused, items)
