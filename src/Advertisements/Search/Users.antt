-- ===== src/Advertisements/Search/Users.antt =====
-- GetUserAdvertisement finds a match of the user exactly when there is one.
use fragua_age.Prelude.{
  ℕ, ◌≡◌, refl, sym, ◌∙◌, ◌⊎◌, inl, inr, true, false, Option, none, some, List, [], ◌∷◌, arith,
  is_some, All, Bool-cases,
}
use fragua_age.Prelude.Int.{ℤ, ℤ_discrete}
use fragua_age.OrderedMap
use fragua_age.OrderedMap.Index.{index_of}
use fragua_age.OrderedMap.Refinement.{lookup}
use fragua_age.OrderedMap.Iteration.{contents, All-lookup, readers-Implements, load-Implements}
use fragua_age.Advertisements.{Advertisements}
use fragua_age.Advertisements.Valid.{Owns, Shows, All-at, Behind-roster, roster}
use fragua_age.Advertisements.Search.{first_of, any_user, has_user, get_user_advertisement}

any_user-index : (user : ℤ) (ks : List ℤ) → any_user user ks ≡ is_some (index_of ℤ_discrete user ks)
unfolding any_user
any_user-index user [] = refl
any_user-index user (k ∷ ks) = ground (arith, any_user-index user ks)

-- What the search says of a user: the user is in no match, or in the match behind a pointer.
pub data UserIn (s : Advertisements) (user : ℤ) : Option ℕ → Type 0 where
  nowhere :
      ((id : ℤ) (users : List ℤ)
        → roster s id ≡ some users
        → is_some (index_of ℤ_discrete user users) ≡ false)
      → UserIn s user none
  inside :
      (id : ℤ) (p : ℕ) (users : List ℤ)
      → (owns : Owns s.heap (id, p)) → OrderedMap.load ℤ_discrete s.store id ≡ some p
      → roster s id ≡ some users
      → is_some (index_of ℤ_discrete user users) ≡ true
      → UserIn s user (some p)

module _ (s : Advertisements) (user : ℤ) (es : List (ℤ × ℕ)) (v : Shows s es) where
  record Lacks (e : ℤ × ℕ) : Type 0 where
    owns : Owns s.heap e
    lacks : has_user user owns.adv ≡ false

  record Hit : Type 0 where
    id : ℤ
    p : ℕ
    owns : Owns s.heap (id, p)
    listed : lookup ℤ_discrete id es ≡ some p
    has : has_user user owns.adv ≡ true

  scan :
      (r : List (ℤ × ℕ))
      → All (Owns s.heap) r
      → All (λ e. lookup ℤ_discrete e.0 es ≡ some e.1) r
      → ((first_of (has_user user) (contents r) s ≡ some (none, s)) × All Lacks r)
        ⊎ ((h : Hit) × (first_of (has_user user) (contents r) s ≡ some (some h.p, s)))
  unfolding first_of
  scan [] o l = inl (refl, tt)
  scan ((j, q) ∷ r) o l = elim (Bool-cases (has_user user o.0.adv)) [
    | inl t ↦
        inr (record { id = j; p = q; owns = o.0; listed = l.0; has = t }, ground (arith, o.0.at, t))
    | inr f ↦ elim (scan r o.1 l.1) [
      | inl (e, lacks) ↦
          inl (ground (arith, o.0.at, f, e), (record { owns = o.0; lacks = f }, lacks))
      | inr (h, e) ↦ inr (h, ground (arith, o.0.at, f, e))
    ]
  ]

  All-lack : All Lacks es → UserIn s user none
  unfolding roster
  All-lack lacks = nowhere λ id users r.
      let b = Behind-roster s es id users v r in
      let e = sym (load-Implements ℤ_discrete s.store es v.stored id) ∙ b.found in
      let lack = All-at Lacks id b.pointer es e lacks in
      ground (arith, r, b.found, lack.owns.at, lack.lacks, any_user-index user users)

  one_has : (h : Hit) → UserIn s user (some h.p)
  unfolding roster
  one_has h =
      let e = load-Implements ℤ_discrete s.store es v.stored h.id ∙ h.listed in
      let users = (OrderedMap.keys h.owns.adv.peers).1 in
      inside h.id h.p users h.owns e (ground (arith, e, h.owns.at))
        (sym (any_user-index user users) ∙ h.has)

  -- In a valid state GetUserAdvertisement panics in no case and changes nothing. It returns a match that
  -- the user is in, or nil when the user is in no match.
  pub get_user_advertisement-UserIn :
      (r : Option ℕ) × (get_user_advertisement user s ≡ some (r, s)) × UserIn s user r
  unfolding get_user_advertisement
  get_user_advertisement-UserIn =
      let vs = (readers-Implements ℤ_discrete 0 s.store es v.stored).1 in
      elim (scan es v.owned (All-lookup ℤ_discrete es v.stored.distinct)) [
        | inl (e, lacks) ↦ (none, ground (arith, vs, e), All-lack lacks)
        | inr (h, e) ↦ (some h.p, ground (arith, vs, e), one_has h)
      ]
