-- ===== src/Advertisements/Valid.antt =====
-- The invariant of the matches: the map is a good SafeOrderedMap, every pointer in it leads to a match
-- that has the key as its id and a good map of peers, and nothing is allocated above `next`.
use fragua_age.Prelude.{
  ℕ, ◌≤◌, ◌≡◌, ◌≢◌, refl, sym, subst, ◌∙◌, ap, inl, inr, Option, none, some, List, [], ◌∷◌, arith,
  All, ◌==◌, Bool-cases, Option-cases,
}
use fragua_age.Prelude.Int.{ℤ, ℤ_discrete}
use fragua_age.OrderedMap
use fragua_age.OrderedMap.{OrderedMap}
use fragua_age.OrderedMap.Index.{names}
use fragua_age.OrderedMap.Refinement.{Implements, lookup, new-Implements}
use fragua_age.OrderedMap.Iteration.{keys-Implements, load-Implements}
use fragua_age.Peer.{Peer}
use fragua_age.Advertisement.{Advertisement}
use fragua_age.Advertisements.{Advertisements, initial, update_heap}

abbrev pub Heap : Type 0
Heap = ℕ → Option Advertisement

-- A pointer of the map leads to a match with the id of its entry.
pub record Owns (heap : Heap) (e : ℤ × ℕ) : Type 0 where
  pub adv : Advertisement
  pub at : heap e.1 ≡ some adv
  pub same_id : adv.id ≡ e.0
  pub roster : List (ℤ × Peer)
  pub peers : Implements ℤ_discrete adv.peers roster

pub record Shows (s : Advertisements) (es : List (ℤ × ℕ)) : Type 0 where
  pub stored : Implements ℤ_discrete s.store es
  pub owned : All (Owns s.heap) es
  pub fresh : (p : ℕ) → s.next ≤ p → s.heap p ≡ none

abbrev pub IsValid : Advertisements → Type 0
IsValid s = (es : List (ℤ × ℕ)) × Shows s es

-- The ids of the users in a match, in the order in which they joined; `none` if there is no such match.
abbrev pub match_roster : Option Advertisement → Option (List ℤ)
match_roster none = none
match_roster (some adv) = some (OrderedMap.keys adv.peers).1

abbrev pub deref_roster : Heap → Option ℕ → Option (List ℤ)
deref_roster heap none = none
deref_roster heap (some p) = match_roster (heap p)

unfoldable pub roster : Advertisements → ℤ → Option (List ℤ)
roster s id = deref_roster s.heap (OrderedMap.load ℤ_discrete s.store id)

pub initial-IsValid : IsValid initial
unfolding initial
initial-IsValid =
    ([], record { stored = new-Implements ℤ_discrete; owned = tt; fresh = λ p h. refl })

pub All-at :
    (P : ℤ × ℕ → Type 0) (k : ℤ) (p : ℕ) (es : List (ℤ × ℕ))
    → lookup ℤ_discrete k es ≡ some p
    → All P es
    → P (k, p)
All-at P k p [] e h = absurd (ground arith)
All-at P k p ((j, q) ∷ es) e h = elim (ℤ_discrete j k) [
  | yes same ↦
      let e' : q ≡ p = ground (arith, e) in
      subst (λ x. P (x, p)) same (subst (λ x. P (j, x)) e' h.0)
  | no other ↦ All-at P k p es (ground (arith, e)) h.1
]

-- The entry behind an id that the map has.
pub found-Owns :
    (s : Advertisements) (es : List (ℤ × ℕ)) (id : ℤ) (p : ℕ)
    → Shows s es
    → OrderedMap.load ℤ_discrete s.store id ≡ some p
    → Owns s.heap (id, p)
found-Owns s es id p v e =
    All-at (Owns s.heap) id p es (sym (load-Implements ℤ_discrete s.store es v.stored id) ∙ e)
      v.owned

module _ (heap : Heap) (p : ℕ) (adv adv' : Advertisement) (ps : List (ℤ × Peer))
    (at : heap p ≡ some adv) (same : adv'.id ≡ adv.id)
    (good : Implements ℤ_discrete adv'.peers ps) where
  pub id_behind : (a b : Advertisement) → some a ≡ some b → a.id ≡ b.id
  id_behind a b e = ap id_of e
    where
      id_of : Option Advertisement → ℤ
      id_of none = adv.id
      id_of (some x) = x.id

  Owns-update : (e : ℤ × ℕ) → Owns heap e → Owns (update_heap heap p adv') e
  Owns-update (j, q) o = elim (Bool-cases (p == q)) [
    | inl hit ↦ record {
      adv = adv';
      at = rw hit;
      same_id = same ∙ id_behind adv o.adv (sym at ∙ ap heap (ground arith) ∙ o.at) ∙ o.same_id;
      roster = ps;
      peers = good;
    }
    | inr miss ↦ record {
      adv = o.adv;
      at = rw miss o.at;
      same_id = o.same_id;
      roster = o.roster;
      peers = o.peers;
    }
  ]

  -- A write through a pointer that keeps the id and a good map of peers.
  pub All-Owns-update :
      (es : List (ℤ × ℕ)) → All (Owns heap) es → All (Owns (update_heap heap p adv')) es
  All-Owns-update [] o = tt
  All-Owns-update (e ∷ es) o = (Owns-update e o.0, All-Owns-update es o.1)

-- What is known of the match behind an id that has a roster.
pub record Behind (s : Advertisements) (es : List (ℤ × ℕ)) (id : ℤ) (users : List ℤ) : Type 0 where
  pub pointer : ℕ
  pub found : OrderedMap.load ℤ_discrete s.store id ≡ some pointer
  pub owns : Owns s.heap (id, pointer)
  pub users_eq : users ≡ names owns.roster

pub Behind-roster :
    (s : Advertisements) (es : List (ℤ × ℕ)) (id : ℤ) (users : List ℤ)
    → Shows s es
    → roster s id ≡ some users
    → Behind s es id users
unfolding roster
Behind-roster s es id users v r = elim (Option-cases (OrderedMap.load ℤ_discrete s.store id)) [
  | inl e ↦ absurd (ground arith)
  | inr (p, e) ↦
      let o = found-Owns s es id p v e in
      record {
        pointer = p;
        found = e;
        owns = o;
        users_eq =
            ground (arith, r, e, o.at, keys-Implements ℤ_discrete o.adv.peers o.roster o.peers);
      }
]

-- An id with no roster is not in the map.
pub behind_none :
    (s : Advertisements) (es : List (ℤ × ℕ)) (id : ℤ)
    → Shows s es
    → roster s id ≡ none
    → OrderedMap.load ℤ_discrete s.store id ≡ none
unfolding roster
behind_none s es id v r = elim (Option-cases (OrderedMap.load ℤ_discrete s.store id)) [
  | inl e ↦ e
  | inr (p, e) ↦ let o = found-Owns s es id p v e in absurd (ground (arith, o.at))
]

abbrev pub written : Advertisements → ℕ → Advertisement → Advertisements
written s p adv' = record s { heap = update_heap s.heap p adv' }

-- A write through the pointer of one match, which keeps its id and a good map of peers.
module _ (s : Advertisements) (es : List (ℤ × ℕ)) (v : Shows s es) (id : ℤ) (users : List ℤ)
    (b : Behind s es id users) (adv' : Advertisement) (ps : List (ℤ × Peer))
    (same : adv'.id ≡ b.owns.adv.id) (good : Implements ℤ_discrete adv'.peers ps) where
  pub written-Shows : Shows (written s b.pointer adv') es
  written-Shows = record {
    stored = v.stored;
    owned = All-Owns-update s.heap b.pointer b.owns.adv adv' ps b.owns.at same good es v.owned;
    fresh = λ q h. elim (Bool-cases (b.pointer == q)) [
      | inl hit ↦ absurd (ground (arith, v.fresh q h, b.owns.at))
      | inr miss ↦ rw miss (v.fresh q h)
    ];
  }

  pub roster-written_self : roster (written s b.pointer adv') id ≡ some (names ps)
  unfolding roster
  roster-written_self = ground (arith, b.found, keys-Implements ℤ_discrete adv'.peers ps good)

  pub pointer_ne :
      (j : ℤ) (q : ℕ) → j ≢ id → OrderedMap.load ℤ_discrete s.store j ≡ some q → b.pointer ≢ q
  pointer_ne j q other e hit =
      let o = b.owns in
      let o' = found-Owns s es j q v e in
      other (
        sym o'.same_id
        ∙ id_behind s.heap b.pointer b.owns.adv adv' ps b.owns.at same good o'.adv o.adv
            (sym o'.at ∙ ap s.heap (sym hit) ∙ o.at)
        ∙ o.same_id)

  pub roster-written_ne : (j : ℤ) → j ≢ id → roster (written s b.pointer adv') j ≡ roster s j
  unfolding roster
  roster-written_ne j other = elim (Option-cases (OrderedMap.load ℤ_discrete s.store j)) [
    | inl e ↦ rw e
    | inr (q, e) ↦ rw e (ground (arith, pointer_ne j q other e))
  ]
