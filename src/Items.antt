-- ===== src/Items.antt =====
-- server/internal/models/item.go and itemLoadout.go: the items and loadouts of a user. A nil map is
-- `none`; a write to one panics. The responses hold what encoding/json makes of the metadata.
pub mod Storing
pub mod Changing
use Prim.Native.String.{String}
use fragua_age.Prelude.{
  ℕ, zero, suc, ◌+◌, ◌^◌, Bool, true, false, not, ◌||◌, ◌==◌, Option, none, some, List, [], ◌∷◌,
  map, length, ltb, if◌then◌else◌,
}
use fragua_age.Prelude.Int.{ℤ, pos, negsuc, eq_ℤ, ℤ_discrete, String_discrete}
use fragua_age.Json.{Json, num, str, nat, array}
use fragua_age.GoMap
use fragua_age.GoMap.{GoMap}

-- Attribute
pub record Attribute : Type 0 where
  pub value : String
  pub source : ℤ
  pub mtype : ℤ

-- ReadOnlyItemMetadata
pub record ReadOnlyItemMetadata : Type 0 where
  pub attributes : Option (GoMap String Attribute)
  pub other : Option (GoMap String Json)

unfoldable pub get_read_only_attribute : String → ReadOnlyItemMetadata → Option Attribute
get_read_only_attribute key r = elim r.attributes [
  | none ↦ none
  | some attributes ↦ GoMap.get String_discrete attributes key
]

-- ItemMetadata
pub record ItemMetadata : Type 0 where
  pub attributes : Option (GoMap String String)
  pub other : Option (GoMap String Json)

-- `len(m) > 0`, of a map that may be nil; the map, if so
abbrev pub if_any : {V : Type 0} → Option (GoMap String V) → Option (GoMap String V)
if_any none = none
if_any (some m) = if GoMap.len m == 0 then none else some m

unfoldable pub get_attribute : String → ItemMetadata → Option String
get_attribute key m = elim m.attributes [
  | none ↦ none
  | some attributes ↦ GoMap.get String_discrete attributes key
]

-- UpdateAttribute and UpdateOther: `none` is the panic on a nil map
unfoldable pub update_attribute : String → String → ItemMetadata → Option ItemMetadata
update_attribute key value m = elim m.attributes [
  | none ↦ none
  | some attributes ↦
      some (record m { attributes = some (GoMap.set String_discrete attributes key value) })
]

unfoldable pub update_other : String → Json → ItemMetadata → Option ItemMetadata
update_other key value m = elim m.other [
  | none ↦ none
  | some other ↦ some (record m { other = some (GoMap.set String_discrete other key value) })
]

-- An entry of the object that Encode builds: the attributes, or one of the others.
pub data Entry : Type 0 where
  attributes : GoMap String String → Entry
  other : Json → Entry

set_others : List (String × Json) → GoMap String Entry → GoMap String Entry
set_others [] all = all
set_others ((k, v) ∷ l) all = set_others l (GoMap.set String_discrete all k (other v))

with_attributes : Option (GoMap String String) → GoMap String Entry
with_attributes none = GoMap.empty
with_attributes (some m) = GoMap.set String_discrete GoMap.empty "att" (attributes m)

entries_of : Option (GoMap String Json) → List (String × Json)
entries_of none = []
entries_of (some m) = m.entries

-- Encode: `marshal` is json.Marshal, with no text for an error
unfoldable pub encode_metadata : (GoMap String Entry → String) → ItemMetadata → String
unfolding set_others with_attributes entries_of
encode_metadata marshal m =
    marshal (set_others (entries_of m.other) (with_attributes (if_any m.attributes)))

-- The object that ItemMetadata.MarshalJSON builds: the keys "attributes" and "other", if they are there.
pub record StoredMetadata : Type 0 where
  pub attributes : Option (GoMap String String)
  pub other : Option (GoMap String Json)

unfoldable pub marshal_metadata : ItemMetadata → StoredMetadata
marshal_metadata m = record { attributes = if_any m.attributes; other = if_any m.other }

-- UnmarshalJSON into a zero ItemMetadata
unfoldable pub unmarshal_metadata : StoredMetadata → ItemMetadata
unmarshal_metadata s = record { attributes = s.attributes; other = s.other }

-- MainItem; the creation date is in seconds
pub record Item : Type 0 where
  pub id : ℤ
  pub metadata : ItemMetadata
  pub entity_version : ℤ
  pub definition_id : ℤ
  pub durability_id : ℤ
  pub durability_count : ℤ
  pub creation_date : ℤ
  pub location_id : ℤ
  pub trade_id : ℤ
  pub permission_flags : ℕ
  pub max_charges : ℤ

-- itemStorage
pub record ItemStorage : Type 0 where
  pub id : ℤ
  pub metadata : StoredMetadata
  pub definition_id : ℤ
  pub durability_id : ℤ
  pub durability_count : ℤ
  pub creation_date : ℤ
  pub location_id : ℤ
  pub trade_id : ℤ
  pub permission_flags : ℕ
  pub max_charges : ℤ

-- newMainItemFromStorage
unfoldable pub new_main_item_from_storage : ItemStorage → Item
unfolding unmarshal_metadata
new_main_item_from_storage s = record {
  id = s.id;
  metadata = unmarshal_metadata s.metadata;
  entity_version = pos 0;
  definition_id = s.definition_id;
  durability_id = s.durability_id;
  durability_count = s.durability_count;
  creation_date = s.creation_date;
  location_id = s.location_id;
  trade_id = s.trade_id;
  permission_flags = s.permission_flags;
  max_charges = s.max_charges;
}

-- what MainItem.MarshalJSON hands to json.Marshal
unfoldable pub to_storage : Item → ItemStorage
unfolding marshal_metadata
to_storage item = record {
  id = item.id;
  metadata = marshal_metadata item.metadata;
  definition_id = item.definition_id;
  durability_id = item.durability_id;
  durability_count = item.durability_count;
  creation_date = item.creation_date;
  location_id = item.location_id;
  trade_id = item.trade_id;
  permission_flags = item.permission_flags;
  max_charges = item.max_charges;
}

-- MainItem.Encode
unfoldable pub encode : (GoMap String Entry → String) → ℤ → Item → List Json
unfolding encode_metadata
encode marshal user item =
    num item.id
    ∷ num item.entity_version
    ∷ num item.definition_id
    ∷ num user
    ∷ num item.durability_count
    ∷ num item.durability_id
    ∷ str (encode_metadata marshal item.metadata)
    ∷ num item.creation_date
    ∷ num item.location_id
    ∷ num item.trade_id
    ∷ nat item.permission_flags
    ∷ num item.max_charges
    ∷ []

-- an int32 plus 1
unfoldable pub increment : ℤ → ℤ
increment (pos n) = if suc n == 2 ^ 31 then negsuc n else pos (suc n)
increment (negsuc zero) = pos 0
increment (negsuc (suc n)) = negsuc n

unfoldable pub set_location_id : ℤ → Item → Item
set_location_id location_id item = record item { location_id = location_id }

unfoldable pub set_durability_count : ℤ → Item → Item
set_durability_count count item = record item { durability_count = count }

unfoldable pub increment_version : Item → Item
unfolding increment
increment_version item = record item { entity_version = increment item.entity_version }

-- MainItemLocation; the category is nil if it is not known
pub record Location : Type 0 where
  pub unknown1_idx_auto_numeric : ℤ
  pub id : ℤ
  pub category : Option ℤ
  pub max : ℤ
  pub unknown1 : ℤ
  pub unknown2 : ℤ
  pub unknown3 : ℤ
  pub unknown4 : ℤ

-- Encode: `none` is the call of a method of a nil category
unfoldable pub encode_location : Location → Option (List Json)
encode_location loc = elim loc.category [
  | none ↦ none
  | some category ↦ some (
      num loc.unknown1_idx_auto_numeric
      ∷ nat 0
      ∷ num loc.id
      ∷ num category
      ∷ num loc.max
      ∷ num loc.unknown1
      ∷ num loc.unknown2
      ∷ num loc.unknown3
      ∷ num loc.unknown4
      ∷ [])
]

-- result[j] = v
set_at : {A : Type 0} → List A → ℕ → A → Option (List A)
set_at [] j v = none
set_at (x ∷ xs) zero v = some (v ∷ xs)
set_at (x ∷ xs) (suc j) v = elim (set_at xs j v) [ none ↦ none | some ys ↦ some (x ∷ ys) ]

set_index : {A : Type 0} → List A → ℤ → A → Option (List A)
unfolding set_at
set_index xs (negsuc n) v = none
set_index xs (pos n) v = set_at xs n v

-- the loop of EncodeLocations over the entries of the map
encode_into : List (ℤ × Location) → List (Option (List Json)) → Option (List (Option (List Json)))
unfolding set_index encode_location
encode_into [] result = some result
encode_into ((j, loc) ∷ l) result = elim (encode_location loc) [
  | none ↦ none
  | some encoded ↦ elim (set_index result j (some encoded)) [
    | none ↦ none
    | some result' ↦ encode_into l result'
  ]
]

nothing : {A : Type 0} → ℕ → List (Option A)
nothing zero = []
nothing (suc n) = none ∷ nothing n

-- EncodeLocations, for the entries of the map in an order; an element that is not set is nil
unfoldable pub encode_locations : List (ℤ × Location) → Option (List (Option (List Json)))
unfolding encode_into nothing
encode_locations l = encode_into l (nothing (length l))

-- The loop for a new id, of at most `fuel` rounds: it draws once.
unfoldable pub new_id : ℕ → (ℤ → Bool) → ℤ → Option ℤ
new_id zero refused draw = none
new_id (suc fuel) refused draw =
    let rest = new_id fuel refused draw in if refused draw then rest else some draw

-- MainItemLoadout
pub record ItemLoadout : Type 0 where
  pub id : ℤ
  pub name : String
  pub item_or_loc_ids : List ℤ
  pub typ : ℤ

unfoldable pub encode_loadout : ℤ → ItemLoadout → List Json
encode_loadout user l = num l.id ∷ num user ∷ str l.name ∷ num l.typ ∷ str "[]" ∷ []

unfoldable pub update_loadout : String → ℤ → List ℤ → ItemLoadout → ItemLoadout
update_loadout name typ ids l = record l { name = name; typ = typ; item_or_loc_ids = ids }

abbrev pub ItemLoadouts : Type 0
ItemLoadouts = GoMap ℤ ItemLoadout

abbrev pub is_taken : ItemLoadouts → ℤ → Bool
is_taken l id = elim (GoMap.get ℤ_discrete l id) [ none ↦ false | some _ ↦ true ]

stored_as : String → ℤ → List ℤ → ℤ → ItemLoadouts → Option ℤ → Option (List Json × ItemLoadouts)
unfolding encode_loadout
stored_as name typ ids user l none = none
stored_as name typ ids user l (some id) =
    let loadout : ItemLoadout = record { id = id; name = name; item_or_loc_ids = ids; typ = typ } in
    some (encode_loadout user loadout, GoMap.set ℤ_discrete l id loadout)

-- NewItemLoadout: `none` is a loop that has not ended after `fuel` rounds; `draw` is the one Int32
unfoldable pub new_item_loadout :
    ℕ → ℤ → String → ℤ → List ℤ → ℤ → ItemLoadouts → Option (List Json × ItemLoadouts)
unfolding stored_as new_id
new_item_loadout fuel draw name typ ids user l =
    stored_as name typ ids user l (new_id fuel (is_taken l) draw)
