-- ===== src/Tests/Items.antt =====
-- The theorems on items and loadouts at concrete inputs.
use Prim.Native.String.{String}
use fragua_age.Prelude.{◌≡◌, refl, true, not, none, some, List, [], ◌∷◌, map, is_some}
use fragua_age.Prelude.Int.{ℤ, pos, negsuc}
use fragua_age.GoMap.{GoMap}
use fragua_age.Items.{Entry, Item, encode, get_attribute, new_main_item_from_storage, to_storage}
use fragua_age.Items.Storing.{encode-to_storage}
use fragua_age.Items.Changing.{Items, Results, written, detach_items, move_item}
use fragua_age.Items.Changing.Versions.{version_at, incremented, code_list, detach_items-versions}
use fragua_age.Items.Changing.Slots.{slots_nil, move_item-returns}
use fragua_age.Tests.{runtime}

abbrev marshal : GoMap String Entry → String
marshal m = "{}"

abbrev sword : Item
sword = record {
  id = pos 100;
  metadata = record { attributes = some (record { entries = ("dmg", "3") ∷ [] }); other = none };
  entity_version = pos 2;
  definition_id = pos 7;
  durability_id = pos 0;
  durability_count = pos 1;
  creation_date = pos 1714620840;
  location_id = pos 0;
  trade_id = negsuc 0;
  permission_flags = 63;
  max_charges = negsuc 0;
}

abbrev inventory : Items
inventory = record { entries = (pos 100, sword) ∷ [] }

encode-to_storage_example :
    (encode marshal (pos 10) (new_main_item_from_storage (to_storage sword))
      ≡ encode marshal (pos 10) (record sword { entity_version = pos 0 }))
    × ((key : String)
        → get_attribute key (new_main_item_from_storage (to_storage sword)).metadata
          ≡ get_attribute key sword.metadata)
encode-to_storage_example = encode-to_storage marshal (pos 10) sword

abbrev ids : List ℤ
ids = pos 100 ∷ pos 101 ∷ pos 100 ∷ []

abbrev unchanged : List ℤ
unchanged = negsuc 0 ∷ negsuc 0 ∷ negsuc 0 ∷ []

abbrev slots : List ℤ
slots = negsuc 0 ∷ negsuc 0 ∷ pos 1 ∷ []

detach_items-versions_example :
    (rs : Results) × (items' : Items) × (detach_items marshal
        (pos 10)
        true
        ids
        unchanged
        unchanged
        inventory
      ≡ (written rs, items'))
    × (map (λ r. r.0) rs ≡ code_list inventory ids)
    × ((k : ℤ) → version_at k items' ≡ incremented k ids (version_at k inventory))
detach_items-versions_example =
    detach_items-versions marshal (pos 10) ids unchanged unchanged inventory refl refl refl

move_item-returns_example :
    is_some (move_item marshal (pos 10) runtime true ids unchanged unchanged slots inventory)
    ≡ not (slots_nil inventory ids slots)
move_item-returns_example =
    move_item-returns marshal (pos 10) runtime ids unchanged unchanged slots inventory refl refl
      refl refl
