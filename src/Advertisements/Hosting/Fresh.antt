-- ===== src/Advertisements/Hosting/Fresh.antt =====
-- Store gives a new match an id that no other match has.
use fragua_age.Prelude.{
  ℕ, suc, ◌≡◌, ◌≢◌, refl, sym, ◌∙◌, ap, ◌⊎◌, inl, inr, Bool, true, false, none, some, List, [], ◌∷◌,
  ◌++◌, arith, All, Option-cases,
}
use fragua_age.Prelude.Int.{ℤ, ℤ_discrete}
use fragua_age.Game.{Title}
use fragua_age.OrderedMap
use fragua_age.OrderedMap.{OrderedMap}
use fragua_age.OrderedMap.Refinement.{
  Implements, lookup, lookup-append, spec_store, store-Implements, new-Implements,
}
use fragua_age.OrderedMap.Iteration.{keys-Implements, load-Implements}
use fragua_age.Advertisement
use fragua_age.Advertisement.{Advertisement}
use fragua_age.Advertisements.{Advertisements, update_heap, assign, alloc}
use fragua_age.Advertisements.Valid.{Owns, Shows, IsValid, roster, found-Owns, behind_none}
use fragua_age.Advertisements.Hosting.{
  HostRequest, Formats, Draws, draft, store_pointer, store_loop, store_advertisement,
}

-- One of the drawn ids is the id of no match.
abbrev pub SomeFree : Advertisements → List ℤ → Type 0
SomeFree s [] = ⊥
SomeFree s (id ∷ ids) = (roster s id ≡ none) ⊎ SomeFree s ids

All-append :
    (P : ℤ × ℕ → Type 0) (es : List (ℤ × ℕ)) (e : ℤ × ℕ) → All P es → P e → All P (es ++ e ∷ [])
All-append P [] e h he = (he, tt)
All-append P (x ∷ es) e h he = (h.0, All-append P es e h.1 he)

-- The state in the loop: but for the new pointer it is the state before.
record Drafting (s : Advertisements) (p : ℕ) (s' : Advertisements) : Type 0 where
  same_store : s'.store ≡ s.store
  same_heap : (q : ℕ) → q ≢ p → s'.heap q ≡ s.heap q
  next_eq : s'.next ≡ suc p

-- The match of the new pointer, under an id that was free.
pub record Hosted (s : Advertisements) (adv : Advertisement) (s' : Advertisements) : Type 0 where
  pub id : ℤ
  pub was_free : roster s id ≡ none
  pub valid : IsValid s'
  pub listed : OrderedMap.load ℤ_discrete s'.store id ≡ some s.next
  pub placed : s'.heap s.next ≡ some (record adv { id = id })
  pub alone : roster s' id ≡ some []
  pub others : (j : ℤ) → j ≢ id → roster s' j ≡ roster s j

not_listed :
    (s : Advertisements) (id : ℤ)
    → OrderedMap.load ℤ_discrete s.store id ≡ none
    → roster s id ≡ none
unfolding roster
not_listed s id e = rw e

module _ (s : Advertisements) (es : List (ℤ × ℕ)) (v : Shows s es) where
  Owns-kept :
      (s' : Advertisements)
      → Drafting s s.next s'
      → (r : List (ℤ × ℕ)) → All (Owns s.heap) r
      → All (Owns s'.heap) r
  Owns-kept s' d [] o = tt
  Owns-kept s' d ((j, q) ∷ r) o = (
    record {
      adv = o.0.adv;
      at = d.same_heap q (λ e. absurd (ground (arith, v.fresh q, o.0.at))) ∙ o.0.at;
      same_id = o.0.same_id;
      roster = o.0.roster;
      peers = o.0.peers;
    },
    Owns-kept s' d r o.1,
  )

  module _ (adv : Advertisement) (good : Implements ℤ_discrete adv.peers []) where
    abbrev assigned : Advertisements → ℤ → Advertisements
    assigned s' id = record s' { heap = update_heap s'.heap s.next (record adv { id = id }) }

    assigned-Drafting :
        (s' : Advertisements) (id : ℤ) → Drafting s s.next s' → Drafting s s.next (assigned s' id)
    assigned-Drafting s' id d = record {
      same_store = d.same_store;
      same_heap = λ q ne. ground (arith, d.same_heap q ne, ne);
      next_eq = d.next_eq;
    }

    module _ (s' : Advertisements) (d : Drafting s s.next s') (id : ℤ)
        (free : roster s id ≡ none) where
      abbrev listed_store : OrderedMap ℤ ℕ
      listed_store = (OrderedMap.store ℤ_discrete id s.next (some (λ _. false)) s'.store).1

      abbrev hosted_state : Advertisements
      hosted_state = record (assigned s' id) { store = listed_store }

      lookup_free : lookup ℤ_discrete id es ≡ none
      lookup_free =
          sym (load-Implements ℤ_discrete s.store es v.stored id) ∙ behind_none s es id v free

      outcome : (Bool × ℕ) × List (ℤ × ℕ)
      outcome = spec_store ℤ_discrete id s.next (some (λ _. false)) es

      outcome_free : outcome ≡ ((false, s.next), es ++ (id, s.next) ∷ [])
      unfolding outcome spec_store
      outcome_free = ground (arith, lookup_free)

      stored_outcome :
          ((OrderedMap.store ℤ_discrete id s.next (some (λ _. false)) s'.store).0 ≡ outcome.0)
          × Implements ℤ_discrete listed_store outcome.1
      unfolding outcome
      stored_outcome =
          store-Implements ℤ_discrete s'.store es (rw d.same_store v.stored) id s.next
            (some (λ _. false))

      store_result :
          (OrderedMap.store ℤ_discrete id s.next (some (λ _. false)) s'.store).0 ≡ (false, s.next)
      store_result = stored_outcome.0 ∙ ap (λ o. o.0) outcome_free

      stored_listed : Implements ℤ_discrete listed_store (es ++ (id, s.next) ∷ [])
      stored_listed = rw outcome_free at stored_outcome.1

      hosted_state-Shows : Shows hosted_state (es ++ (id, s.next) ∷ [])
      hosted_state-Shows = record {
        stored = stored_listed;
        owned =
            All-append (Owns hosted_state.heap) es (id, s.next)
              (Owns-kept (assigned s' id) (assigned-Drafting s' id d) es v.owned)
              (record {
                adv = record adv { id = id };
                at = ground arith;
                same_id = refl;
                roster = [];
                peers = good;
              });
        fresh = λ q h. ground (arith, d.next_eq, d.same_heap q, v.fresh q);
      }

      load_hosted :
          (j : ℤ)
          → OrderedMap.load ℤ_discrete listed_store j
            ≡ lookup ℤ_discrete j (es ++ (id, s.next) ∷ [])
      load_hosted = load-Implements ℤ_discrete listed_store _ stored_listed

      roster_alone : roster hosted_state id ≡ some []
      unfolding roster
      roster_alone = ground (
        arith,
        load_hosted id,
        lookup-append ℤ_discrete id id s.next es,
        lookup_free,
        keys-Implements ℤ_discrete adv.peers [] good,
      )

      load_other :
          (j : ℤ)
          → j ≢ id
          → OrderedMap.load ℤ_discrete listed_store j ≡ OrderedMap.load ℤ_discrete s.store j
      load_other j ne = ground (
        arith,
        load_hosted j,
        lookup-append ℤ_discrete j id s.next es,
        load-Implements ℤ_discrete s.store es v.stored j,
        ne,
      )

      roster_other : (j : ℤ) → j ≢ id → roster hosted_state j ≡ roster s j
      unfolding roster
      roster_other j ne = elim (Option-cases (OrderedMap.load ℤ_discrete s.store j)) [
        | inl e ↦ rw (load_other j ne, e)
        | inr (q, e) ↦
            let o = found-Owns s es j q v e in
            rw (load_other j ne, e) (ground (arith, d.same_heap q, o.at, v.fresh q))
      ]

      hosted : Hosted s adv hosted_state
      hosted = record {
        id = id;
        was_free = free;
        valid = (es ++ (id, s.next) ∷ [], hosted_state-Shows);
        listed =
            ground (arith, load_hosted id, lookup-append ℤ_discrete id id s.next es, lookup_free);
        placed = ground arith;
        alone = roster_alone;
        others = roster_other;
      }

    store_taken :
        (s' : Advertisements) (id : ℤ) (q : ℕ)
        → Drafting s s.next s'
        → OrderedMap.load ℤ_discrete s.store id ≡ some q
        → OrderedMap.store ℤ_discrete id s.next (some (λ _. false)) s'.store ≡ ((true, q), s'.store)
    unfolding OrderedMap.store
    store_taken s' id q d e =
        ground (
          arith,
          load-Implements ℤ_discrete s.store es v.stored id,
          v.stored.stored id,
          d.same_store,
        )

    still_free :
        (id : ℤ) (q : ℕ) (ids : List ℤ)
        → OrderedMap.load ℤ_discrete s.store id ≡ some q
        → SomeFree s (id ∷ ids)
        → SomeFree s ids
    still_free id q ids e (inl free) = absurd (ground (arith, behind_none s es id v free))
    still_free id q ids e (inr rest) = rest

    store_loop_free :
        (ids : List ℤ) (s' : Advertisements) (d : Drafting s s.next s') (id : ℤ)
        (free : roster s id ≡ none)
        → store_loop s.next adv (id ∷ ids) s' ≡ some (s.next, hosted_state s' d id free)
    unfolding store_loop store_pointer assign
    store_loop_free ids s' d id free = ground (arith, store_result s' d id free)

    store_loop_taken :
        (ids : List ℤ) (s' : Advertisements) (id : ℤ) (q : ℕ)
        → Drafting s s.next s'
        → OrderedMap.load ℤ_discrete s.store id ≡ some q
        → store_loop s.next adv (id ∷ ids) s' ≡ store_loop s.next adv ids (assigned s' id)
    unfolding store_loop store_pointer assign
    store_loop_taken ids s' id q d e = ground (arith, store_taken s' id q d e)

    store_loop-Hosted :
        (ids : List ℤ) (s' : Advertisements)
        → Drafting s s.next s'
        → SomeFree s ids
        → (t : Advertisements) × (store_loop s.next adv ids s' ≡ some (s.next, t)) × Hosted s adv t
    store_loop-Hosted [] s' d f = absurd f
    store_loop-Hosted (id ∷ ids) s' d f =
        elim (Option-cases (OrderedMap.load ℤ_discrete s.store id)) [
          | inl e ↦
              let free : roster s id ≡ none = not_listed s id e in
              (hosted_state s' d id free, store_loop_free ids s' d id free, hosted s' d id free)
          | inr (q, e) ↦
              let rest =
                store_loop-Hosted ids (assigned s' id) (assigned-Drafting s' id d)
                  (still_free id q ids e f) in
              (rest.0, store_loop_taken ids s' id q d e ∙ rest.1, rest.2)
        ]

  alloc-Drafting :
      (adv : Advertisement)
      → Drafting s s.next (record s { heap = update_heap s.heap s.next adv; next = suc s.next })
  alloc-Drafting adv = record {
    same_store = refl;
    same_heap = λ q ne. ground (arith, ne);
    next_eq = refl;
  }

draft_peers :
    (formats : Formats) (draws : Draws) (now : ℕ) (r : HostRequest) (session : Bool) (title : Title)
    → (draft formats draws now r session title).peers ≡ OrderedMap.new_ordered_map
unfolding draft Advertisement.update Advertisement.update_state
draft_peers formats draws now r session title = ground arith

-- If one of the drawn ids is the id of no match, Store returns a pointer that no match had; it leads
-- to the match that was built, now with an id that was free and with no users; the state is valid,
-- and all other matches have the users that they had.
pub store_advertisement-Hosted :
    (formats : Formats) (draws : Draws) (now : ℕ) (r : HostRequest) (session : Bool) (title : Title)
    (s : Advertisements)
    → IsValid s
    → SomeFree s draws.ids
    → (t : Advertisements) × (store_advertisement formats draws now r session title s
        ≡ some (s.next, t))
      × Hosted s (draft formats draws now r session title) t
unfolding store_advertisement alloc
store_advertisement-Hosted formats draws now r session title s (es, v) f =
    let adv = draft formats draws now r session title in
    let good : Implements ℤ_discrete adv.peers [] =
      rw (draft_peers formats draws now r session title) (new-Implements ℤ_discrete) in
    store_loop-Hosted s es v adv good draws.ids _ (alloc-Drafting s es v adv) f
