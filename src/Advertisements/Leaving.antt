-- ===== src/Advertisements/Leaving.antt =====
-- Leaving a match: the last user to leave takes the match with them.
use fragua_age.Prelude.{
  ℕ, ◌≡◌, ◌≢◌, refl, sym, ◌∙◌, ap, inl, inr, if_pos, if_neg, Option, none, some, List, [], ◌∷◌,
  length, arith, is_some, ◌==◌, if◌then◌else◌, Bool-cases, Option-cases, All, ite,
}
use fragua_age.Prelude.Int.{ℤ, ℤ_discrete}
use fragua_age.OrderedMap
use fragua_age.OrderedMap.{OrderedMap}
use fragua_age.OrderedMap.Index.{names, index_of, remove, remove_absent}
use fragua_age.OrderedMap.Refinement.{
  Implements, lookup, without, spec_delete, delete-Implements, index-names, names-without,
  lookup-without,
}
use fragua_age.OrderedMap.Iteration.{len-Implements, load-Implements}
use fragua_age.Peer.{Peer}
use fragua_age.Advertisement.{Advertisement}
use fragua_age.Advertisements.{Advertisements, unsafe_remove_peer}
use fragua_age.Advertisements.Valid.{
  IsValid, Shows, Behind-roster, roster, written, written-Shows, roster-written_self,
  roster-written_ne,
}

-- The users of a match without one of them; no match is left without users.
abbrev pub some_if_any : List ℤ → Option (List ℤ)
some_if_any [] = none
some_if_any (k ∷ ks) = some (k ∷ ks)

abbrev pub after_leaving : ℤ → List ℤ → Option (List ℤ)
after_leaving user users = elim (index_of ℤ_discrete user users) [
  | none ↦ some users
  | some _ ↦ some_if_any (remove ℤ_discrete user users)
]

All-without :
    (P : ℤ × ℕ → Type 0) (k : ℤ) (es : List (ℤ × ℕ)) → All P es → All P (without ℤ_discrete k es)
All-without P k [] h = tt
All-without P k ((j, q) ∷ es) h = elim (ℤ_discrete j k) [
  | yes same ↦ rw (if_pos _ same) (All-without P k es h.1)
  | no other ↦ rw (if_neg _ other) (h.0, All-without P k es h.1)
]

module _ (s : Advertisements) (es : List (ℤ × ℕ)) (v : Shows s es) (id : ℤ) (store : OrderedMap ℤ ℕ)
    (good : Implements ℤ_discrete store (without ℤ_discrete id es)) where
  abbrev pub unlisted : Advertisements
  unlisted = record s { store = store }

  pub unlisted-Shows : Shows unlisted (without ℤ_discrete id es)
  unlisted-Shows = record { stored = good; owned = All-without _ id es v.owned; fresh = v.fresh }

  load_unlisted :
      (j : ℤ)
      → OrderedMap.load ℤ_discrete store j
        ≡ ite (ℤ_discrete id j) none (OrderedMap.load ℤ_discrete s.store j)
  load_unlisted j =
      rw
        (
          load-Implements ℤ_discrete store (without ℤ_discrete id es) good,
          load-Implements ℤ_discrete s.store es v.stored,
        )
        (lookup-without ℤ_discrete j id es)

  pub roster-unlisted_self : roster unlisted id ≡ none
  unfolding roster
  roster-unlisted_self = ground (arith, load_unlisted id)

  pub roster-unlisted_ne : (j : ℤ) → j ≢ id → roster unlisted j ≡ roster s j
  unfolding roster
  roster-unlisted_ne j other = rw load_unlisted (rw (if_neg (ℤ_discrete id j) (λ e. other (sym e))))

some_if_any-names :
    (l : List (ℤ × Peer)) → some_if_any (names l) ≡ (if length l == 0 then none else some (names l))
some_if_any-names [] = refl
some_if_any-names ((k, p) ∷ l) = ground arith

-- The users left, when the user was among them and when not.
after_leaving_present :
    (user : ℤ) (ps : List (ℤ × Peer)) (w : Peer)
    → lookup ℤ_discrete user ps ≡ some w
    → after_leaving user (names ps) ≡ (
        let rest = without ℤ_discrete user ps in
        if length rest == 0 then none else some (names rest))
after_leaving_present user ps w e = ground (
  arith,
  index-names ℤ_discrete user ps,
  names-without ℤ_discrete user ps,
  some_if_any-names (without ℤ_discrete user ps),
)

after_leaving_absent :
    (user : ℤ) (ps : List (ℤ × Peer))
    → lookup ℤ_discrete user ps ≡ none
    → after_leaving user (names ps) ≡ some (names (without ℤ_discrete user ps))
after_leaving_absent user ps e = ground (
  arith,
  index-names ℤ_discrete user ps,
  names-without ℤ_discrete user ps,
  remove_absent ℤ_discrete user (names ps),
)

is_some-users :
    (user : ℤ) (ps : List (ℤ × Peer)) (users : List ℤ)
    → users ≡ names ps
    → is_some (index_of ℤ_discrete user users) ≡ is_some (lookup ℤ_discrete user ps)
is_some-users user ps users e = rw e (index-names ℤ_discrete user ps)

module _ (s : Advertisements) (id user : ℤ) where
  -- In a valid state UnsafeRemovePeer of a match that exists panics in no case. Its result says whether
  -- the user was in the match, and if so the user is in it no more; a match that has lost its last
  -- user is gone. No other match changes, and the state stays valid.
  pub unsafe_remove_peer-roster :
      (users : List ℤ)
      → IsValid s
      → roster s id ≡ some users
      → (s' : Advertisements) × (unsafe_remove_peer id user s
          ≡ some (is_some (index_of ℤ_discrete user users), s'))
        × IsValid s'
        × (roster s' id ≡ after_leaving user users)
        × ((j : ℤ) → j ≢ id → roster s' j ≡ roster s j)
  unfolding unsafe_remove_peer spec_delete
  unsafe_remove_peer-roster users (es, v) r =
      let b = Behind-roster s es id users v r in
      let o = b.owns in
      let (peers, run, good) = delete-Implements ℤ_discrete o.adv.peers o.roster o.peers user in
      let adv' : Advertisement = record o.adv { peers = peers } in
      let ps = (spec_delete ℤ_discrete user o.roster).1 in
      let s1 = written s b.pointer adv' in
      let valid = written-Shows s es v id users b adv' ps refl good in
      let self = roster-written_self s es v id users b adv' ps refl good in
      let other = roster-written_ne s es v id users b adv' ps refl good in
      let flag = is_some-users user o.roster users b.users_eq in
      let count = len-Implements ℤ_discrete peers ps good in
      let left = λ (w : Peer) (e : lookup ℤ_discrete user o.roster ≡ some w).
        ap (after_leaving user) b.users_eq ∙ after_leaving_present user o.roster w e in
      elim (Option-cases (lookup ℤ_discrete user o.roster)) [
        | inl e ↦ (
          s1,
          ground (arith, b.found, o.at, run, e, flag),
          (es, valid),
          self ∙ sym (ap (after_leaving user) b.users_eq ∙ after_leaving_absent user o.roster e),
          other,
        )
        | inr (w, e) ↦ elim (Bool-cases (OrderedMap.len peers == 0)) [
          | inl t ↦
              let (store, run2, good2) = delete-Implements ℤ_discrete s.store es v.stored id in
              (
                unlisted s1 es valid id store good2,
                ground (arith, b.found, o.at, run, e, flag, t, o.same_id, run2),
                (without ℤ_discrete id es, unlisted-Shows s1 es valid id store good2),
                roster-unlisted_self s1 es valid id store good2
                    ∙ sym (left w e ∙ ground (arith, t, count)),
                λ j ne. roster-unlisted_ne s1 es valid id store good2 j ne ∙ other j ne,
              )
          | inr t ↦ (
            s1,
            ground (arith, b.found, o.at, run, e, flag, t),
            (es, valid),
            self ∙ sym (left w e ∙ ground (arith, t, count)),
            other,
          )
        ]
      ]
