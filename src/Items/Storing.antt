-- ===== src/Items/Storing.antt =====
-- server/internal/models/item.go and itemLoadout.go: what an item is after it was stored and loaded, and
-- when a new loadout gets its id.
use Prim.Native.String.{String}
use fragua_age.Prelude.{
  ℕ, zero, suc, ◌≡◌, refl, sym, ◌∙◌, inl, inr, Bool, not, ◌==◌, Option, none, some, List, [], ◌∷◌,
  arith, is_some, Option-cases, Bool-cases,
}
use fragua_age.Prelude.Int.{ℤ, pos, String_discrete}
use fragua_age.Json.{Json}
use fragua_age.GoMap
use fragua_age.GoMap.{GoMap}
use fragua_age.Items.{
  Entry, ItemMetadata, Item, ItemLoadouts, if_any, get_attribute, marshal_metadata,
  unmarshal_metadata, encode_metadata, entries_of, new_main_item_from_storage, to_storage, encode,
  new_id, is_taken, stored_as, new_item_loadout,
}

if_any-if_any : {V : Type 0} (m : Option (GoMap String V)) → if_any (if_any m) ≡ if_any m
if_any-if_any none = refl
if_any-if_any (some m) = elim (Bool-cases (GoMap.len m == 0)) [
  | inl e ↦ ground (arith, e)
  | inr e ↦ ground (arith, e)
]

entries_of-if_any : (m : Option (GoMap String Json)) → entries_of (if_any m) ≡ entries_of m
unfolding entries_of GoMap.len
entries_of-if_any none = refl
entries_of-if_any (some m) = on_entries m.entries refl
  where
    on_entries :
        (es : List (String × Json)) → es ≡ m.entries → entries_of (if_any (some m)) ≡ m.entries
    on_entries [] e = ground (arith, sym e)
    on_entries (x ∷ es) e = ground (arith, sym e)

-- An empty map that was stored is nil afterwards, and has the same keys: none.
get-if_any :
    (key : String) (m : GoMap String String)
    → elim (if_any (some m)) as (λ _. Option String) [
      | none ↦ none
      | some b ↦ GoMap.get String_discrete b key
    ]
      ≡ GoMap.get String_discrete m key
unfolding GoMap.get GoMap.len
get-if_any key m = on_entries m.entries refl
  where
    on_entries :
        (es : List (String × String))
        → es ≡ m.entries
        → elim (if_any (some m)) as (λ _. Option String) [
          | none ↦ none
          | some b ↦ GoMap.get String_discrete b key
        ]
          ≡ GoMap.get String_discrete m key
    on_entries [] e = ground (arith, sym e)
    on_entries (x ∷ es) e = ground (arith, sym e)

get_attribute-if_any :
    (key : String) (m : ItemMetadata)
    → get_attribute key (unmarshal_metadata (marshal_metadata m)) ≡ get_attribute key m
unfolding get_attribute marshal_metadata unmarshal_metadata
get_attribute-if_any key m = elim (Option-cases m.attributes) [
  | inl n ↦ ground (arith, n)
  | inr (a, e) ↦ ground (arith, e, get-if_any key a)
]

-- An item that is stored and loaded again is encoded in responses as before, but with version 0, and has the same
-- value for every attribute.
pub encode-to_storage :
    (marshal : GoMap String Entry → String) (user : ℤ) (item : Item)
    → (encode marshal user (new_main_item_from_storage (to_storage item))
        ≡ encode marshal user (record item { entity_version = pos 0 }))
      × ((key : String)
          → get_attribute key (new_main_item_from_storage (to_storage item)).metadata
            ≡ get_attribute key item.metadata)
unfolding encode encode_metadata new_main_item_from_storage to_storage marshal_metadata
    unmarshal_metadata
encode-to_storage marshal user item = (
  ground (arith, if_any-if_any item.metadata.attributes, entries_of-if_any item.metadata.other),
  λ key. get_attribute-if_any key item.metadata,
)

is_some-stored_as :
    (name : String) (typ : ℤ) (ids : List ℤ) (user : ℤ) (l : ItemLoadouts) (id : Option ℤ)
    → is_some (stored_as name typ ids user l id) ≡ is_some id
unfolding stored_as
is_some-stored_as name typ ids user l none = refl
is_some-stored_as name typ ids user l (some id) = refl

new_id-returns :
    (fuel : ℕ) (refused : ℤ → Bool) (draw : ℤ)
    → is_some (new_id (suc fuel) refused draw) ≡ not (refused draw)
unfolding new_id
new_id-returns zero refused draw = ground arith
new_id-returns (suc fuel) refused draw = ground (arith, new_id-returns fuel refused draw)

-- NewItemLoadout has returned after one round of its loop if the number that it draws is the id of no loadout;
-- otherwise it has not returned after any number of rounds.
new_item_loadout-returns :
    (fuel : ℕ) (draw : ℤ) (name : String) (typ : ℤ) (ids : List ℤ) (user : ℤ) (l : ItemLoadouts)
    → is_some (new_item_loadout (suc fuel) draw name typ ids user l) ≡ not (is_taken l draw)
unfolding new_item_loadout
new_item_loadout-returns fuel draw name typ ids user l =
    is_some-stored_as name typ ids user l _ ∙ new_id-returns fuel (is_taken l) draw
