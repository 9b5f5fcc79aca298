-- ===== src/Advertisements/Writing.antt =====
-- A write through the pointer of a match that keeps its id and its peers.
use fragua_age.Peer.{Peer}
use fragua_age.Prelude.{
  List, ap, ℕ, ◌≡◌, refl, sym, ◌∙◌, subst, inl, inr, ite, Option, none, some, arith, Option-cases,
}
use fragua_age.Prelude.Int.{ℤ, ℤ_discrete}
use fragua_age.OrderedMap
use fragua_age.OrderedMap.Index.{names}
use fragua_age.OrderedMap.Refinement.{Implements}
use fragua_age.OrderedMap.Iteration.{keys-Implements}
use fragua_age.Advertisement.{Advertisement}
use fragua_age.Advertisements.{Advertisements}
use fragua_age.Advertisements.Valid.{
  Owns, IsValid, Behind, roster, written, written-Shows, roster-written_self, roster-written_ne,
  pointer_ne,
}

-- The match behind an id.
abbrev pub found : Advertisements → ℤ → Option Advertisement
found s j = elim (OrderedMap.load ℤ_discrete s.store j) [ none ↦ none | some q ↦ s.heap q ]

-- The state stays valid, and every match keeps its users.
pub record Kept (s t : Advertisements) : Type 0 where
  pub valid : IsValid t
  pub rosters : (j : ℤ) → roster t j ≡ roster s j

pub Kept-refl : (s : Advertisements) → IsValid s → Kept s s
Kept-refl s v = record { valid = v; rosters = λ j. refl }

module _ (s : Advertisements) (v : IsValid s) (id : ℤ) (p : ℕ) (o : Owns s.heap (id, p))
    (load : OrderedMap.load ℤ_discrete s.store id ≡ some p) where
  roster_at : roster s id ≡ some (names o.roster)
  unfolding roster
  roster_at = ground (arith, load, o.at, keys-Implements ℤ_discrete o.adv.peers o.roster o.peers)

  pub rewritten-Kept :
      (adv' : Advertisement) (ps : List (ℤ × Peer))
      → adv'.id ≡ o.adv.id
      → Implements ℤ_discrete adv'.peers ps
      → names ps ≡ names o.roster
      → Kept s (written s p adv')
  rewritten-Kept adv' ps same good users =
      let b : Behind s v.0 id (names o.roster) = record {
        pointer = p;
        found = load;
        owns = o;
        users_eq = refl;
      } in
      record {
        valid = (v.0, written-Shows s v.0 v.1 id (names o.roster) b adv' ps same good);
        rosters = λ j. elim (ℤ_discrete j id) [
          | yes hit ↦
              subst (λ x. roster (written s p adv') x ≡ roster s x) (sym hit)
                (roster-written_self s v.0 v.1 id (names o.roster) b adv' ps same good
                  ∙ ap some users
                  ∙ sym roster_at)
          | no miss ↦ roster-written_ne s v.0 v.1 id (names o.roster) b adv' ps same good j miss
        ];
      }

  pub written-Kept :
      (adv' : Advertisement)
      → adv'.id ≡ o.adv.id
      → adv'.peers ≡ o.adv.peers
      → Kept s (written s p adv')
  written-Kept adv' same peers = rewritten-Kept adv' o.roster same (rw peers o.peers) refl

  -- the matches behind the ids, after a write through the pointer of one
  pub found-written :
      (adv' : Advertisement) (ps : List (ℤ × Peer))
      → adv'.id ≡ o.adv.id
      → Implements ℤ_discrete adv'.peers ps
      → (j : ℤ) → found (written s p adv') j ≡ ite (ℤ_discrete j id) (some adv') (found s j)
  found-written adv' ps same good j =
      let b : Behind s v.0 id (names o.roster) = record {
        pointer = p;
        found = load;
        owns = o;
        users_eq = refl;
      } in
      elim (ℤ_discrete j id) as (λ d. found (written s p adv') j ≡ ite d (some adv') (found s j)) [
        | yes hit ↦ ground (arith, ap (OrderedMap.load ℤ_discrete s.store) hit ∙ load)
        | no miss ↦ elim (Option-cases (OrderedMap.load ℤ_discrete s.store j)) [
          | inl e ↦ ground (arith, e)
          | inr (q, e) ↦
              ground
                (arith, e, pointer_ne s v.0 v.1 id (names o.roster) b adv' ps same good j q miss e)
        ]
      ]
