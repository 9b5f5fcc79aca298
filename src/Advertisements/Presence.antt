-- ===== src/Advertisements/Presence.antt =====
-- Which users are in which matches, and how joining, leaving and hosting change it.
use fragua_age.Prelude.{
  ◌≡◌, ◌≢◌, refl, sym, ◌∙◌, Bool, true, false, not, ◌&&◌, ◌||◌, Option, none, some, List, [], ◌∷◌,
  arith, is_some, test,
}
use fragua_age.Prelude.Int.{ℤ, ℤ_discrete}
use fragua_age.OrderedMap.Index.{index_of, index-append, remove}
use fragua_age.Advertisements.{Advertisements}
use fragua_age.Advertisements.Valid.{roster}
use fragua_age.Advertisements.Peers.{enlist}
use fragua_age.Advertisements.Leaving.{some_if_any, after_leaving}

abbrev pub has : ℤ → List ℤ → Bool
has user users = is_some (index_of ℤ_discrete user users)

abbrev pub same : ℤ → ℤ → Bool
same a b = test (ℤ_discrete a b)

abbrev pub has_any : ℤ → Option (List ℤ) → Bool
has_any user none = false
has_any user (some users) = has user users

-- The user is in the match.
unfoldable pub is_in : Advertisements → ℤ → ℤ → Bool
is_in s id user = has_any user (roster s id)

-- No user is in two matches.
abbrev pub OneMatch : Advertisements → Type 0
OneMatch s = (user i j : ℤ) → is_in s i user ≡ true → is_in s j user ≡ true → i ≡ j

has-enlist : (u w : ℤ) (users : List ℤ) → has u (enlist w users) ≡ (has u users || same w u)
has-enlist u w users = ground (arith, index-append ℤ_discrete u w users, has-found)
  where
    has-found :
        is_some (index_of ℤ_discrete w users) ≡ true
        → w ≡ u
        → is_some (index_of ℤ_discrete u users) ≡ true
    has-found e same = ground arith

has-remove :
    (u w : ℤ) (users : List ℤ) → has u (remove ℤ_discrete w users) ≡ (has u users && not (same w u))
has-remove u w [] = refl
has-remove u w (x ∷ users) = ground (arith, has-remove u w users)

has_any-some_if_any : (u : ℤ) (users : List ℤ) → has_any u (some_if_any users) ≡ has u users
has_any-some_if_any u [] = refl
has_any-some_if_any u (x ∷ users) = refl

has_any-after_leaving :
    (u w : ℤ) (users : List ℤ) → has_any u (after_leaving w users) ≡ (has u users && not (same w u))
has_any-after_leaving u w users =
    ground (arith, has_any-some_if_any u (remove ℤ_discrete w users), has-remove u w users)

module _ (s s' : Advertisements) (id user : ℤ) (users : List ℤ) (r : roster s id ≡ some users)
    (others : (j : ℤ) → j ≢ id → roster s' j ≡ roster s j) where
  pub is_in-enlist :
      roster s' id ≡ some (enlist user users)
      → (j u : ℤ) → is_in s' j u ≡ (is_in s j u || (same id j && same user u))
  unfolding is_in
  is_in-enlist e j u = elim (ℤ_discrete id j) [
    | yes hit ↦ ground (arith, r, e, hit, has-enlist u user users)
    | no miss ↦ ground (arith, others j (λ h. miss (sym h)), miss)
  ]

  pub is_in-after_leaving :
      roster s' id ≡ after_leaving user users
      → (j u : ℤ) → is_in s' j u ≡ (is_in s j u && not (same id j && same user u))
  unfolding is_in
  is_in-after_leaving e j u = elim (ℤ_discrete id j) [
    | yes hit ↦ ground (arith, r, e, hit, has_any-after_leaving u user users)
    | no miss ↦ ground (arith, others j (λ h. miss (sym h)), miss)
  ]

  pub none-after_leaving :
      roster s' id ≡ after_leaving user users → (j : ℤ) → roster s j ≡ none → roster s' j ≡ none
  none-after_leaving e j n = elim (ℤ_discrete id j) [
    | yes hit ↦ absurd (ground (arith, hit, r, n))
    | no miss ↦ others j (λ h. miss (sym h)) ∙ n
  ]

-- Two states with the same users, but for a match that only the second has, without users.
pub is_in_hosted :
    (s s' : Advertisements) (id : ℤ)
    → roster s id ≡ none
    → roster s' id ≡ some []
    → ((j : ℤ) → j ≢ id → roster s' j ≡ roster s j)
    → (j u : ℤ) → is_in s' j u ≡ is_in s j u
unfolding is_in
is_in_hosted s s' id n e others j u = elim (ℤ_discrete id j) [
  | yes hit ↦ ground (arith, n, e, hit)
  | no miss ↦ ground (arith, others j (λ h. miss (sym h)))
]

-- A user who was in no match enters one.
pub OneMatch-enters :
    (s s' : Advertisements) (id user : ℤ)
    → OneMatch s
    → ((j : ℤ) → is_in s j user ≡ false)
    → ((j u : ℤ) → is_in s' j u ≡ (is_in s j u || (same id j && same user u)))
    → OneMatch s'
OneMatch-enters s s' id user one absent e u i j hi hj = elim (ℤ_discrete user u) [
  | yes hit ↦ ground (arith, e i u, e j u, hi, hj, hit, absent i, absent j)
  | no miss ↦ one u i j (ground (arith, e i u, hi, miss)) (ground (arith, e j u, hj, miss))
]
