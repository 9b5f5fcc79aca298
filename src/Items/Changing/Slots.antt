-- ===== src/Items/Changing/Slots.antt =====
-- server/internal/routes/game/item/moveItem.go: when MoveItem panics.
use Prim.Native.String.{String}
use fragua_age.Prelude.{
  ◌≡◌, ◌⊎◌, refl, sym, ◌∙◌, ap, inl, inr, ite, Bool, true, false, not, ◌&&◌, ◌||◌, ◌==◌, Option,
  none, some, List, [], ◌∷◌, length, arith, is_some, Option-cases, Bool-cases,
}
use fragua_age.Prelude.Int.{ℤ, negsuc, eq_ℤ, ℤ_discrete, String_discrete}
use fragua_age.Json.{Json, str, nat, array}
use fragua_age.GoMap
use fragua_age.GoMap.{GoMap, get-set}
use fragua_age.User.{Runtime}
use fragua_age.Items.{encode, Entry, Item, increment_version, set_location_id, update_other}
use fragua_age.Items.Changing.{
  Items, Results, unless, slotted, placed, moved, answered, move_all, written_of, move_item,
}

-- The item is there and its map of other metadata is nil.
abbrev pub has_no_others : Option Item → Bool
has_no_others none = false
has_no_others (some item) = not (is_some item.metadata.other)

-- Some entry of the request gives a slot to such an item.
abbrev pub slots_nil : Items → List ℤ → List ℤ → Bool
slots_nil items (id ∷ ids) (slot ∷ slots) =
    (not (eq_ℤ slot (negsuc 0)) && has_no_others (GoMap.get ℤ_discrete items id))
    || slots_nil items ids slots
slots_nil items _ _ = false

slots_nil-set :
    (items : Items) (id : ℤ) (item item' : Item) (ids slots : List ℤ)
    → GoMap.get ℤ_discrete items id ≡ some item
    → has_no_others (some item') ≡ has_no_others (some item)
    → slots_nil (GoMap.set ℤ_discrete items id item') ids slots ≡ slots_nil items ids slots
slots_nil-set items id item item' [] slots e h = refl
slots_nil-set items id item item' (j ∷ ids) [] e h = refl
slots_nil-set items id item item' (j ∷ ids) (slot ∷ slots) e h =
    let rest = slots_nil-set items id item item' ids slots e h in
    let here : has_no_others (GoMap.get ℤ_discrete (GoMap.set ℤ_discrete items id item') j)
        ≡ has_no_others (GoMap.get ℤ_discrete items j) =
      ap has_no_others (get-set ℤ_discrete items id j item')
      ∙ elim (ℤ_discrete id j)
          as (λ d.
            has_no_others (ite d (some item') (GoMap.get ℤ_discrete items j))
            ≡ has_no_others (GoMap.get ℤ_discrete items j)) [
              | yes same ↦ h ∙ ap has_no_others (sym e ∙ ap (GoMap.get ℤ_discrete items) same)
              | no other ↦ refl
            ] in
    ground (arith, rest, here)

module _ (marshal : GoMap String Entry → String) (user : ℤ) (go : Runtime) where
  abbrev hits_nil : ℤ → Item → Bool
  hits_nil slot item = not (eq_ℤ slot (negsuc 0)) && has_no_others (some item)

  -- A change of one item that panics, or leaves its other map nil or not nil.
  Moved : ℤ → Item → Option Item → Type 0
  Moved slot item m =
      ((m ≡ none) × (hits_nil slot item ≡ true))
      ⊎ ((item' : Item) × (m ≡ some item')
          × (hits_nil slot item ≡ false)
          × (has_no_others (some item') ≡ has_no_others (some item)))

  placed-Moved : (slot : ℤ) (item : Item) → Moved slot item (placed marshal user go slot item)
  unfolding Moved placed slotted update_other increment_version
  placed-Moved slot item = elim (Bool-cases (eq_ℤ slot (negsuc 0))) [
    | inl e ↦ inr (increment_version item, ground (arith, e), ground (arith, e), refl)
    | inr e ↦ elim (Option-cases item.metadata.other) [
      | inl n ↦ inl (ground (arith, e, n), ground (arith, e, n))
      | inr (m, f) ↦ inr (
        increment_version (record item {
          metadata = record item.metadata {
            other = some (GoMap.set String_discrete m "eslot" (str (go.itoa slot)));
          };
        }),
        ground (arith, e, f),
        ground (arith, e, f),
        ground (arith, f),
      )
    ]
  ]

  located-has_no_others :
      (location : ℤ) (item : Item)
      → has_no_others (some (unless (eq_ℤ location (negsuc 0)) (set_location_id location) item))
        ≡ has_no_others (some item)
  unfolding set_location_id
  located-has_no_others location item = elim (Bool-cases (eq_ℤ location (negsuc 0))) [
    | inl l ↦ ground (arith, l)
    | inr l ↦ ground (arith, l)
  ]

  moved-Moved :
      (location slot : ℤ) (item : Item) → Moved slot item (moved marshal user go location slot item)
  unfolding Moved moved
  moved-Moved location slot item =
      let item1 = unless (eq_ℤ location (negsuc 0)) (set_location_id location) item in
      let same = located-has_no_others location item in
      elim (placed-Moved slot item1) [
        | inl (e, h) ↦ inl (e, ap (λ b. not (eq_ℤ slot (negsuc 0)) && b) (sym same) ∙ h)
        | inr (item', e, h, k) ↦
            inr (item', e, ap (λ b. not (eq_ℤ slot (negsuc 0)) && b) (sym same) ∙ h, k ∙ same)
      ]

  is_some-answered :
      (r : Json × Json) (m : Option (Results × Items))
      → is_some (answered marshal user r m) ≡ is_some m
  unfolding answered
  is_some-answered r none = refl
  is_some-answered r (some (rs, items)) = refl

  move_all-returns :
      (ids locations slots : List ℤ) (items : Items)
      → length ids ≡ length locations
      → length ids ≡ length slots
      → is_some (move_all marshal user go ids locations slots items)
        ≡ not (slots_nil items ids slots)
  unfolding move_all Moved
  move_all-returns [] locations slots items h h' = ground arith
  move_all-returns (id ∷ ids) [] slots items h h' = absurd (omega (arith, h))
  move_all-returns (id ∷ ids) (l ∷ ls) [] items h h' = absurd (omega (arith, h'))
  move_all-returns (id ∷ ids) (l ∷ ls) (slot ∷ slots) items h h' =
      elim (Option-cases (GoMap.get ℤ_discrete items id)) [
        | inl n ↦
            let rest = move_all-returns ids ls slots items (omega (arith, h)) (omega (arith, h')) in
            ground (
              arith,
              n,
              rest,
              is_some-answered (nat 2, array []) (move_all marshal user go ids ls slots items),
            )
        | inr (item, e) ↦ elim (moved-Moved l slot item) [
          | inl (m, nil) ↦ ground (arith, e, m, nil)
          | inr (item', m, fine, same) ↦
              let next = GoMap.set ℤ_discrete items id item' in
              let rest =
                move_all-returns ids ls slots next (omega (arith, h)) (omega (arith, h')) in
              ground (
                arith,
                e,
                m,
                fine,
                rest,
                is_some-answered (nat 0, array (encode marshal user item'))
                    (move_all marshal user go ids ls slots next),
                slots_nil-set items id item item' ids slots e same,
              )
        ]
      ]

is_some-written_of :
    (marshal : GoMap String Entry → String) (user : ℤ) (m : Option (Results × Items))
    → is_some (written_of marshal user m) ≡ is_some m
unfolding written_of
is_some-written_of marshal user none = refl
is_some-written_of marshal user (some (rs, items)) = refl

-- For lists of one length that is not zero, and a known user, MoveItem returns exactly if no entry of the request
-- gives a slot to an item whose map of other metadata is nil; otherwise it panics.
pub move_item-returns :
    (marshal : GoMap String Entry → String) (user : ℤ) (go : Runtime)
    (ids locations positions slots : List ℤ) (items : Items)
    → (length ids == 0) ≡ false
    → length ids ≡ length locations
    → length ids ≡ length positions
    → length ids ≡ length slots
    → is_some (move_item marshal user go true ids locations positions slots items)
      ≡ not (slots_nil items ids slots)
unfolding move_item
move_item-returns marshal user go ids locations positions slots items n h h' h'' = ground (
  arith,
  n,
  h,
  h',
  h'',
  is_some-written_of marshal user (move_all marshal user go ids locations slots items),
  move_all-returns marshal user go ids locations slots items h h'',
)
