-- ===== src/Items/Changing/Versions.antt =====
-- server/internal/routes/game/item: what the handlers do to the versions of the items, and when MoveItem
-- panics.
use Prim.Native.String.{String}
use fragua_age.Prelude.{
  ◌≡◌, refl, sym, ◌∙◌, ap, inl, inr, ite, true, false, ◌==◌, Option, none, some, List, [], ◌∷◌, map,
  length, arith, is_some, test, Option-cases, Bool-cases, if◌then◌else◌,
}
use fragua_age.Prelude.Int.{ℤ, negsuc, eq_ℤ, ℤ_discrete}
use fragua_age.Json.{Json, nat}
use fragua_age.GoMap
use fragua_age.GoMap.{GoMap, get-set}
use fragua_age.Items.{
  Entry, Item, increment, increment_version, set_location_id, set_durability_count,
}
use fragua_age.Items.Changing.{
  Items, Results, written, detached, detach_all, detach_known, detach_items,
}

-- The version of an item, if it is there.
abbrev pub version_at : ℤ → Items → Option ℤ
version_at k items = elim (GoMap.get ℤ_discrete items k) [
  | none ↦ none
  | some item ↦ some item.entity_version
]

-- A version that was incremented once for each time that `k` is in the list.
abbrev pub incremented : ℤ → List ℤ → Option ℤ → Option ℤ
incremented k ids none = none
incremented k [] v = v
incremented k (id ∷ ids) (some v) =
    incremented k ids (some (if test (ℤ_discrete id k) then increment v else v))

-- The code that a handler answers for an id.
abbrev pub code_for : Items → ℤ → Json
code_for items id = if is_some (GoMap.get ℤ_discrete items id) then nat 0 else nat 2

abbrev pub code_list : Items → List ℤ → List Json
code_list items [] = []
code_list items (id ∷ ids) = code_for items id ∷ code_list items ids

-- Replacing an item that is there does not change which are.
code_list-set :
    (items : Items) (id : ℤ) (item item' : Item) (ids : List ℤ)
    → GoMap.get ℤ_discrete items id ≡ some item
    → code_list (GoMap.set ℤ_discrete items id item') ids ≡ code_list items ids
code_list-set items id item item' [] e = refl
code_list-set items id item item' (j ∷ ids) e =
    let rest = code_list-set items id item item' ids e in
    let here = get-set ℤ_discrete items id j item' in
    elim (ℤ_discrete id j) [
      | yes h ↦ ground (arith, rest, here, h, ap (GoMap.get ℤ_discrete items) (sym h) ∙ e)
      | no h ↦ ground (arith, rest, here, h)
    ]

incremented-cons :
    (k id : ℤ) (ids : List ℤ) (v : Option ℤ)
    → incremented k (id ∷ ids) v ≡ incremented k ids (incremented k (id ∷ []) v)
incremented-cons k id [] none = refl
incremented-cons k id (j ∷ ids) none = refl
incremented-cons k id ids (some v) = refl

abbrev version_of : Option Item → Option ℤ
version_of none = none
version_of (some item) = some item.entity_version

version_at-of :
    (k : ℤ) (items : Items) → version_at k items ≡ version_of (GoMap.get ℤ_discrete items k)
version_at-of k items = elim (Option-cases (GoMap.get ℤ_discrete items k)) [
  | inl n ↦ ground (arith, n)
  | inr (i, e) ↦ ground (arith, e)
]

version_at-set :
    (items : Items) (id k : ℤ) (item item' : Item)
    → GoMap.get ℤ_discrete items id ≡ some item
    → item'.entity_version ≡ increment item.entity_version
    → version_at k (GoMap.set ℤ_discrete items id item')
      ≡ incremented k (id ∷ []) (version_at k items)
version_at-set items id k item item' e v =
    version_at-of k (GoMap.set ℤ_discrete items id item')
    ∙ ap version_of (get-set ℤ_discrete items id k item')
    ∙ elim (ℤ_discrete id k)
        as (λ d.
          version_of (ite d (some item') (GoMap.get ℤ_discrete items k))
          ≡ incremented k (id ∷ []) (version_at k items)) [
            | yes h ↦
                let found : version_at k items ≡ some item.entity_version =
                  version_at-of k items
                  ∙ ap version_of (ap (GoMap.get ℤ_discrete items) (sym h) ∙ e) in
                ground (arith, found, h, v)
            | no h ↦ sym (version_at-of k items) ∙ elim (Option-cases (version_at k items)) [
              | inl n ↦ ground (arith, n)
              | inr (w, f) ↦ ground (arith, f, h)
            ]
          ]

module _ (marshal : GoMap String Entry → String) (user : ℤ) where
  detached-version :
      (location count : ℤ) (item : Item)
      → (detached marshal user location count item).entity_version ≡ increment item.entity_version
  unfolding increment_version set_location_id set_durability_count
  detached-version location count item = elim (Bool-cases (eq_ℤ count (negsuc 0))) [
    | inl c ↦ elim (Bool-cases (eq_ℤ location (negsuc 0))) [
      | inl l ↦ ground (arith, c, l)
      | inr l ↦ ground (arith, c, l)
    ]
    | inr c ↦ elim (Bool-cases (eq_ℤ location (negsuc 0))) [
      | inl l ↦ ground (arith, c, l)
      | inr l ↦ ground (arith, c, l)
    ]
  ]

  detach_all-versions :
      (ids locations counts : List ℤ) (items : Items)
      → length ids ≡ length locations
      → length ids ≡ length counts
      → (map (λ r. r.0) (detach_all marshal user ids locations counts items).0
          ≡ code_list items ids)
        × ((k : ℤ)
            → version_at k (detach_all marshal user ids locations counts items).1
              ≡ incremented k ids (version_at k items))
  unfolding detach_all
  detach_all-versions [] locations counts items h h' = (refl, λ k. ground arith)
  detach_all-versions (id ∷ ids) [] counts items h h' = absurd (omega (arith, h))
  detach_all-versions (id ∷ ids) (l ∷ ls) [] items h h' = absurd (omega (arith, h'))
  detach_all-versions (id ∷ ids) (l ∷ ls) (c ∷ cs) items h h' =
      elim (Option-cases (GoMap.get ℤ_discrete items id)) [
        | inl n ↦
            let (codes, now) =
              detach_all-versions ids ls cs items (omega (arith, h)) (omega (arith, h')) in
            (
              ground (arith, n, codes),
              λ k.
                  ap (version_at k) (ground (arith, n))
                  ∙ now k
                  ∙ sym (absent k n)
                  ∙ sym (incremented-cons k id ids (version_at k items)),
            )
        | inr (item, e) ↦
            let item' = detached marshal user l c item in
            let next = GoMap.set ℤ_discrete items id item' in
            let (codes, now) =
              detach_all-versions ids ls cs next (omega (arith, h)) (omega (arith, h')) in
            (
              ground (arith, e, codes, code_list-set items id item item' ids e),
              λ k.
                  ap (version_at k) (ground (arith, e))
                  ∙ now k
                  ∙ ap (incremented k ids)
                      (version_at-set items id k item item' e (detached-version l c item))
                  ∙ sym (incremented-cons k id ids (version_at k items)),
            )
      ]
    where
      absent :
          (k : ℤ)
          → GoMap.get ℤ_discrete items id ≡ none
          → incremented k ids (incremented k (id ∷ []) (version_at k items))
            ≡ incremented k ids (version_at k items)
      absent k n = ap (incremented k ids) (elim (ℤ_discrete id k) [
        | yes same ↦
            let gone : version_at k items ≡ none =
              version_at-of k items
              ∙ ap version_of (ap (GoMap.get ℤ_discrete items) (sym same) ∙ n) in
            ground (arith, gone)
        | no other ↦ elim (Option-cases (version_at k items)) [
          | inl m ↦ ground (arith, m)
          | inr (v, f) ↦ ground (arith, f, other)
        ]
      ])

-- For lists of one length that is not zero, and a known user, DetachItems answers one code for each id of the
-- request, 0 if there is such an item and 2 if not. Every item that is there has its version incremented,
-- as an int32, once for each time that the request names it, and no item comes or goes.
pub detach_items-versions :
    (marshal : GoMap String Entry → String) (user : ℤ) (ids locations counts : List ℤ)
    (items : Items)
    → (length ids == 0) ≡ false
    → length ids ≡ length locations
    → length ids ≡ length counts
    → (rs : Results) × (items' : Items) × (detach_items marshal user true ids locations counts items
        ≡ (written rs, items'))
      × (map (λ r. r.0) rs ≡ code_list items ids)
      × ((k : ℤ) → version_at k items' ≡ incremented k ids (version_at k items))
unfolding detach_items detach_known
detach_items-versions marshal user ids locations counts items n h h' =
    let (codes, now) = detach_all-versions marshal user ids locations counts items h h' in
    let r = detach_all marshal user ids locations counts items in
    (r.0, r.1, ground (arith, n, h, h'), codes, now)
