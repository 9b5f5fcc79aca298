-- ===== src/Routes/Party/Assigning.antt =====
-- server/internal/routes/game/party/peerUpdate.go: the peers of a match after their races and teams were set.
use fragua_age.Prelude.{
  ◌≡◌, refl, sym, ◌∙◌, subst, inl, inr, Bool, true, false, Option, none, some, List, [], ◌∷◌, arith,
  is_some, ite, ap, ◌&&◌, Option-cases, if◌then◌else◌,
}
use fragua_age.Prelude.Int.{ℤ, ℤ_discrete}
use fragua_age.OrderedMap
use fragua_age.OrderedMap.{OrderedMap}
use fragua_age.OrderedMap.Index.{names}
use fragua_age.OrderedMap.Refinement.{
  Implements, lookup, spec_store, names-replace_at, store-Implements,
}
use fragua_age.OrderedMap.Iteration.{load-Implements}
use fragua_age.Peer
use fragua_age.Peer.{Peer}
use fragua_age.Advertisement.{Advertisement}
use fragua_age.Routes.{Site}
use fragua_age.Routes.Party.{update_peer, update_peers, peers_of}
use fragua_age.OrderedMap.Refinement.{lookup-replace_at}
use fragua_age.Advertisements.Presence.{same}
use fragua_age.User.{User}

-- A good map of peers, with the users in their order.
pub record SameUsers (adv adv' : Advertisement) (ps : List (ℤ × Peer)) : Type 0 where
  pub now : List (ℤ × Peer)
  pub good : Implements ℤ_discrete adv'.peers now
  pub users : names now ≡ names ps
  pub same_id : adv'.id ≡ adv.id

pub update_peer-SameUsers :
    (f : Peer → Peer) (user : ℤ) (adv : Advertisement) (ps : List (ℤ × Peer))
    → Implements ℤ_discrete adv.peers ps
    → SameUsers adv (update_peer f user adv) ps
unfolding update_peer spec_store
update_peer-SameUsers f user adv ps h = elim (Option-cases (lookup ℤ_discrete user ps)) [
  | inl n ↦
      let e = load-Implements ℤ_discrete adv.peers ps h user ∙ n in
      let now : update_peer f user adv ≡ adv = ground (arith, e) in
      subst (λ a. SameUsers adv a ps) (sym now)
        (record { now = ps; good = h; users = refl; same_id = refl })
  | inr (peer, l) ↦
      let e = load-Implements ℤ_discrete adv.peers ps h user ∙ l in
      let (_, good) = store-Implements ℤ_discrete adv.peers ps h user (f peer) none in
      let now : update_peer f user adv
          ≡ record adv { peers = (OrderedMap.store ℤ_discrete user (f peer) none adv.peers).1 } =
        ground (arith, e) in
      subst (λ a. SameUsers adv a ps) (sym now)
        (record {
          now = (spec_store ℤ_discrete user (f peer) none ps).1;
          good = good;
          users = ground (arith, l, names-replace_at ℤ_discrete user (f peer) ps);
          same_id = refl;
        })
]

pub update_peers-SameUsers :
    (us races teams : List ℤ) (adv : Advertisement) (ps : List (ℤ × Peer))
    → Implements ℤ_discrete adv.peers ps
    → SameUsers adv (update_peers us races teams adv) ps
unfolding update_peers
update_peers-SameUsers [] races teams adv ps h = record {
  now = ps;
  good = h;
  users = refl;
  same_id = refl;
}
update_peers-SameUsers (u ∷ us) [] teams adv ps h = record {
  now = ps;
  good = h;
  users = refl;
  same_id = refl;
}
update_peers-SameUsers (u ∷ us) (race ∷ races) [] adv ps h = record {
  now = ps;
  good = h;
  users = refl;
  same_id = refl;
}
update_peers-SameUsers (u ∷ us) (race ∷ races) (team ∷ teams) adv ps h =
    let f = λ (p : Peer). Peer.update_mutable race team p in
    let one = update_peer-SameUsers f u adv ps h in
    let rest = update_peers-SameUsers us races teams (update_peer f u adv) one.now one.good in
    record {
      now = rest.now;
      good = rest.good;
      users = rest.users ∙ one.users;
      same_id = rest.same_id ∙ one.same_id;
    }

abbrev pub on_user : (Peer → Peer) → ℤ → ℤ → Option Peer → Option Peer
on_user f user w o = if same user w then (elim o [ none ↦ none | some p ↦ some (f p) ]) else o

load-update_peer :
    (f : Peer → Peer) (user : ℤ) (adv : Advertisement) (ps : List (ℤ × Peer))
    → Implements ℤ_discrete adv.peers ps
    → (w : ℤ)
    → OrderedMap.load ℤ_discrete (update_peer f user adv).peers w
      ≡ on_user f user w (OrderedMap.load ℤ_discrete adv.peers w)
unfolding update_peer spec_store
load-update_peer f user adv ps h w = elim (Option-cases (lookup ℤ_discrete user ps)) [
  | inl n ↦
      let e = load-Implements ℤ_discrete adv.peers ps h user ∙ n in
      elim (ℤ_discrete user w) [
        | yes self ↦
            let e' = ap (OrderedMap.load ℤ_discrete adv.peers) (sym self) ∙ e in
            ground (arith, e, e', self)
        | no other ↦ ground (arith, e, other)
      ]
  | inr (peer, l) ↦
      let e = load-Implements ℤ_discrete adv.peers ps h user ∙ l in
      let (_, good) = store-Implements ℤ_discrete adv.peers ps h user (f peer) none in
      let stored = (OrderedMap.store ℤ_discrete user (f peer) none adv.peers).1 in
      let now : OrderedMap.load ℤ_discrete stored w
          ≡ ite (ℤ_discrete user w) (some (f peer)) (lookup ℤ_discrete w ps) =
        load-Implements ℤ_discrete stored _ good w
        ∙ ground (arith, l, lookup-replace_at ℤ_discrete w user (f peer) ps) in
      let before = load-Implements ℤ_discrete adv.peers ps h w in
      elim (ℤ_discrete user w) [
        | yes self ↦
            let e' = ap (OrderedMap.load ℤ_discrete adv.peers) (sym self) ∙ e in
            ground (arith, e, e', self, now)
        | no other ↦ ground (arith, e, other, now, before)
      ]
]

abbrev pub seated : ℤ → ℤ → Peer → Peer
seated race team p = record p { race = race; team = team }

-- The peer of a user after races and teams were given to users, one after the other.
abbrev pub given : ℤ → List ℤ → List ℤ → List ℤ → Option Peer → Option Peer
given w (u ∷ us) (race ∷ races) (team ∷ teams) o =
    given w us races teams (on_user (seated race team) u w o)
given w _ _ _ o = o

-- The same for the users of profiles.
abbrev for_user : (Peer → Peer) → Option User → ℤ → Option Peer → Option Peer
for_user f none w o = o
for_user f (some u) w o = on_user f u.id w o

abbrev pub assigned : Site → ℤ → List ℤ → List ℤ → List ℤ → Option Peer → Option Peer
assigned site w (id ∷ ids) (race ∷ races) (team ∷ teams) o =
    assigned site w ids races teams (for_user (seated race team) (site.users id) w o)
assigned site w _ _ _ o = o

-- All profiles are known, and their users meet a condition.
abbrev met : (ℤ → Bool) → Option User → Bool
met member none = false
met member (some u) = member u.id

abbrev pub all_in : Site → (ℤ → Bool) → List ℤ → Bool
all_in site member [] = true
all_in site member (id ∷ ids) = met member (site.users id) && all_in site member ids

pub load-update_peers :
    (us races teams : List ℤ) (adv : Advertisement) (ps : List (ℤ × Peer))
    → Implements ℤ_discrete adv.peers ps
    → (w : ℤ)
    → OrderedMap.load ℤ_discrete (update_peers us races teams adv).peers w
      ≡ given w us races teams (OrderedMap.load ℤ_discrete adv.peers w)
unfolding update_peers Peer.update_mutable
load-update_peers [] races teams adv ps h w = refl
load-update_peers (u ∷ us) [] teams adv ps h w = refl
load-update_peers (u ∷ us) (race ∷ races) [] adv ps h w = refl
load-update_peers (u ∷ us) (race ∷ races) (team ∷ teams) adv ps h w =
    let f = λ (p : Peer). Peer.update_mutable race team p in
    let one = update_peer-SameUsers f u adv ps h in
    load-update_peers us races teams (update_peer f u adv) one.now one.good w
    ∙ ap (given w us races teams) (load-update_peer f u adv ps h w)

module _ (site : Site) (adv : Advertisement) where
  given_step :
      (w id : ℤ) (ids races teams : List ℤ) (u : User) (us : List ℤ) (o : Option Peer)
      → site.users id ≡ some u
      → ((rs ts : List ℤ) (x : Option Peer) → assigned site w ids rs ts x ≡ given w us rs ts x)
      → assigned site w (id ∷ ids) races teams o ≡ given w (u.id ∷ us) races teams o
  given_step w id ids [] teams u us o e h = refl
  given_step w id ids (race ∷ races) [] u us o e h = refl
  given_step w id ids (race ∷ races) (team ∷ teams) u us o e h =
      ap (λ x. assigned site w ids races teams (for_user (seated race team) x w o)) e
      ∙ h races teams (on_user (seated race team) u.id w o)

  -- The users that the loop finds, if it finds all.
  pub given-peers_of :
      (w : ℤ) (ids races teams us : List ℤ) (o : Option Peer)
      → peers_of site adv ids ≡ some us
      → assigned site w ids races teams o ≡ given w us races teams o
  unfolding peers_of
  given-peers_of w [] races teams us o e =
      let same_users : [] ≡ us = ground (arith, e) in
      subst (λ x. o ≡ given w x races teams o) same_users refl
  given-peers_of w (id ∷ ids) races teams us o e = elim (Option-cases (site.users id)) [
    | inl n ↦ absurd (ground (arith, e, n))
    | inr (u, f) ↦ elim (Option-cases (OrderedMap.load ℤ_discrete adv.peers u.id)) [
      | inl n ↦ absurd (ground (arith, e, f, n))
      | inr (p, g) ↦ elim (Option-cases (peers_of site adv ids)) [
        | inl n ↦ absurd (ground (arith, e, f, g, n))
        | inr (rest, h) ↦
            let same_users : u.id ∷ rest ≡ us = ground (arith, e, f, g, h) in
            subst (λ x. assigned site w (id ∷ ids) races teams o ≡ given w x races teams o)
              same_users
              (given_step w id ids races teams u rest o f
                (λ rs ts x. given-peers_of w ids rs ts rest x h))
      ]
    ]
  ]

  pub all_in-peers_of :
      (ids : List ℤ)
      → is_some (peers_of site adv ids)
        ≡ all_in site (λ w. is_some (OrderedMap.load ℤ_discrete adv.peers w)) ids
  unfolding peers_of
  all_in-peers_of [] = refl
  all_in-peers_of (id ∷ ids) = elim (Option-cases (site.users id)) [
    | inl n ↦ ground (arith, n)
    | inr (u, e) ↦ elim (Option-cases (OrderedMap.load ℤ_discrete adv.peers u.id)) [
      | inl n ↦ ground (arith, e, n)
      | inr (p, f) ↦ ground (arith, e, f, all_in-peers_of ids)
    ]
  ]
