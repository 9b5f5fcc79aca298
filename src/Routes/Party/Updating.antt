-- ===== src/Routes/Party/Updating.antt =====
-- server/internal/routes/game/party: peerUpdate.go and updateHost.go keep who is in which match.
use fragua_age.Prelude.{
  ℕ, ◌≡◌, refl, sym, ◌∙◌, inl, inr, Bool, true, false, Option, none, some, List, [], ◌∷◌, arith,
  is_some, ◌&&◌, ◌==◌, length, ap, Option-cases, Bool-cases, if◌then◌else◌,
}
use fragua_age.Prelude.Int.{ℤ, ℤ_discrete, eq_ℤ}
use fragua_age.OrderedMap
use fragua_age.OrderedMap.{OrderedMap}
use fragua_age.OrderedMap.Index.{names}
use fragua_age.OrderedMap.Iteration.{head_entry, readers-Implements}
use fragua_age.Peer.{Peer}
use fragua_age.Advertisement
use fragua_age.Advertisement.{Advertisement}
use fragua_age.Advertisements.{Advertisements, deref, assign, get_advertisement}
use fragua_age.Advertisements.Valid.{Owns, IsValid, roster, written, found-Owns}
use fragua_age.Advertisements.Writing.{
  found, found-written, Kept, Kept-refl, written-Kept, rewritten-Kept,
}
use fragua_age.Routes.{Site, Writes, fails, succeeds}
use fragua_age.Routes.Changes.Answering.{match_at}
use fragua_age.Advertisements.Presence.{same}
use fragua_age.Routes.Party.Assigning.{
  update_peers-SameUsers, assigned, all_in, all_in-peers_of, given-peers_of, load-update_peers,
}
use fragua_age.Routes.Party.{
  PeerRequest, parse_parameters, update_peers, peers_of, update_users, peers_found, peers_parsed,
  peer_update, is_first, host_found, update_host,
}

-- What a handler does that answers with success exactly if `a` holds, and otherwise changes nothing.
record Answers (a : Bool) (s : Advertisements) (m : Option (Writes × Advertisements)) : Type 0 where
  t : Advertisements
  run : m ≡ some ((if a then succeeds else fails), t)
  kept : Kept s t
  same : a ≡ false → t ≡ s

unchanged :
    (a a' : Bool) (s : Advertisements) (m : Option (Writes × Advertisements))
    → IsValid s
    → a ≡ a'
    → m ≡ some ((if a' then succeeds else fails), s)
    → Answers a s m
unchanged a a' s m v same e = record {
  t = s;
  run = ground (arith, same, e);
  kept = Kept-refl s v;
  same = λ _. refl;
}

-- The peer of a user in a match.
abbrev pub peer_at : Advertisements → ℤ → ℤ → Option Peer
peer_at s j w = elim (found s j) [ none ↦ none | some adv ↦ OrderedMap.load ℤ_discrete adv.peers w ]

abbrev pub is_hosted : Option Advertisement → ℤ → Bool
is_hosted none user = false
is_hosted (some adv) user = eq_ℤ adv.host_id user

-- A request is accepted if its lists are of one length, the match exists and the user is its host, and all
-- profiles are known and in the match.
abbrev pub accepts : Site → Option PeerRequest → ℤ → Advertisements → Bool
accepts site none user s = false
accepts site (some q) user s =
    ((length q.profile_ids == length q.race_ids) && (length q.race_ids == length q.team_ids))
    && (is_hosted (found s q.match_id) user
        && all_in site (λ w. is_some (peer_at s q.match_id w)) q.profile_ids)

-- The peer of a user in a match after a request: in the match of the request, it has the race and the team
-- that the request names last for this user.
abbrev pub peer_after : Site → Option PeerRequest → Advertisements → ℤ → ℤ → Option Peer
peer_after site none s j w = peer_at s j w
peer_after site (some q) s j w =
    if same q.match_id j
    then assigned site w q.profile_ids q.race_ids q.team_ids (peer_at s j w)
    else peer_at s j w

-- What PeerUpdate does with a request of which `a` says whether it is accepted.
record Updates (site : Site) (req : Option PeerRequest) (a : Bool) (s : Advertisements)
    (m : Option (Writes × Advertisements)) : Type 0 where
  t : Advertisements
  run : m ≡ some ((if a then succeeds else fails), t)
  kept : Kept s t
  same : a ≡ false → t ≡ s
  now : (j w : ℤ) → peer_at t j w ≡ (if a then peer_after site req s j w else peer_at s j w)

-- The first user that joined, of those that are in a match.
abbrev pub leads : Option (List ℤ) → ℤ → Bool
leads (some (first ∷ _)) user = eq_ℤ first user
leads _ user = false

abbrev pub host_of : Option Advertisement → Option ℤ
host_of none = none
host_of (some adv) = some adv.host_id

module _ (site : Site) (user : ℤ) (s : Advertisements) (v : IsValid s) where
  no_update :
      (req : Option PeerRequest) (a : Bool) (m : Option (Writes × Advertisements))
      → a ≡ false
      → m ≡ some (fails, s)
      → Updates site req a s m
  no_update req a m refuses e = record {
    t = s;
    run = ground (arith, refuses, e);
    kept = Kept-refl s v;
    same = λ _. refl;
    now = λ j w. ground (arith, refuses);
  }

  module _ (q : PeerRequest) (p : ℕ) (load : OrderedMap.load ℤ_discrete s.store q.match_id ≡ some p)
      (o : Owns s.heap (q.match_id, p)) (us : List ℤ)
      (all : peers_of site o.adv q.profile_ids ≡ some us) where
    abbrev rewritten : Advertisement
    rewritten = update_peers us q.race_ids q.team_ids o.adv

    peer_at-written :
        (j w : ℤ) → peer_at (written s p rewritten) j w ≡ peer_after site (some q) s j w
    peer_at-written j w =
        let b = update_peers-SameUsers us q.race_ids q.team_ids o.adv o.roster o.peers in
        let e = found-written s v q.match_id p o load rewritten b.now b.same_id b.good j in
        let f = load-update_peers us q.race_ids q.team_ids o.adv o.roster o.peers w in
        let before = OrderedMap.load ℤ_discrete o.adv.peers w in
        let g = given-peers_of site o.adv w q.profile_ids q.race_ids q.team_ids us before all in
        elim (ℤ_discrete j q.match_id) [
          | no miss ↦ ground (arith, e, miss)
          | yes hit ↦
              let here : found s j ≡ some o.adv =
                ground (arith, ap (OrderedMap.load ℤ_discrete s.store) hit ∙ load, o.at) in
              ground (arith, e, f, g, hit, here)
        ]

  peers_found-Updates :
      (q : PeerRequest) (p : ℕ)
      → OrderedMap.load ℤ_discrete s.store q.match_id ≡ some p
      → Updates site
          (some q)
          (is_hosted (found s q.match_id) user
            && all_in site (λ w. is_some (peer_at s q.match_id w)) q.profile_ids)
          s
          (peers_found site q user (some p) s)
  unfolding peers_found deref update_users assign
  peers_found-Updates q p load =
      let o = found-Owns s v.0 q.match_id p v.1 load in
      let here : found s q.match_id ≡ some o.adv = ground (arith, load, o.at) in
      let known : all_in site (λ w. is_some (peer_at s q.match_id w)) q.profile_ids
          ≡ is_some (peers_of site o.adv q.profile_ids) =
        ap
          (λ a.
            all_in site
              (λ w. is_some (elim a as (λ _. Option Peer) [
                | none ↦ none
                | some adv ↦ OrderedMap.load ℤ_discrete adv.peers w
              ]))
              q.profile_ids)
          here
        ∙ sym (all_in-peers_of site o.adv q.profile_ids) in
      elim (Bool-cases (eq_ℤ o.adv.host_id user)) [
        | inr n ↦ no_update (some q) _ _ (ground (arith, here, n)) (ground (arith, o.at, n))
        | inl e ↦ elim (Option-cases (peers_of site o.adv q.profile_ids)) [
          | inl n ↦
              no_update (some q) _ _ (ground (arith, here, e, known, n))
                (ground (arith, o.at, e, n))
          | inr (us, f) ↦
              let b = update_peers-SameUsers us q.race_ids q.team_ids o.adv o.roster o.peers in
              let adv' = update_peers us q.race_ids q.team_ids o.adv in
              record {
                t = written s p adv';
                run = ground (arith, o.at, e, f, here, known);
                kept = rewritten-Kept s v q.match_id p o load adv' b.now b.same_id b.good b.users;
                same = λ n. absurd (ground (arith, here, e, f, known, n));
                now = λ j w. ground (arith, here, e, f, known, peer_at-written q p load o us f j w);
              }
        ]
      ]

  peer_update-Updates :
      (req : Option PeerRequest)
      → Updates site req (accepts site req user s) s (peer_update site req user s)
  unfolding peer_update peers_parsed get_advertisement parse_parameters
  peer_update-Updates none = no_update none _ _ refl refl
  peer_update-Updates (some q) =
      elim (Bool-cases
        ((length q.profile_ids == length q.race_ids) && (length q.race_ids == length q.team_ids))) [
          | inr n ↦ no_update (some q) _ _ (ground (arith, n)) (ground (arith, n))
          | inl e ↦ elim (Option-cases (OrderedMap.load ℤ_discrete s.store q.match_id)) [
            | inl n ↦ no_update (some q) _ _ (ground (arith, e, n)) (ground (arith, e, n))
            | inr (p, f) ↦
                let o = peers_found-Updates q p f in
                record {
                  t = o.t;
                  run = ground (arith, e, f, o.run);
                  kept = o.kept;
                  same = λ n. o.same (ground (arith, e, n));
                  now = λ j w. ground (arith, e, o.now j w);
                }
          ]
        ]

-- From a valid state PeerUpdate answers without a panic, with success exactly if its lists are of one
-- length, the match exists, the user is its host and all profiles are known and in the match. Then every user
-- of the profiles has the race and the team that the request names last for the user, and all else of every
-- peer in every match is as it was. No match gains or loses a user or changes their order, the state is valid,
-- and a failure changes nothing.
pub peer_update-Kept :
    (site : Site) (req : Option PeerRequest) (user : ℤ) (s : Advertisements)
    → IsValid s
    → (t : Advertisements) × (peer_update site req user s
        ≡ some ((if accepts site req user s then succeeds else fails), t))
      × Kept s t
      × (accepts site req user s ≡ false → t ≡ s)
      × ((j w : ℤ)
          → peer_at t j w
            ≡ (if accepts site req user s then peer_after site req s j w else peer_at s j w))
peer_update-Kept site req user s v =
    let o = peer_update-Updates site user s v req in (o.t, o.run, o.kept, o.same, o.now)

-- What UpdateHost does to a match that exists.
module _ (site : Site) (user id : ℤ) (s : Advertisements) (v : IsValid s) (p : ℕ)
    (load : OrderedMap.load ℤ_discrete s.store id ≡ some p) where
  is_first-leads :
      (o : Owns s.heap (id, p))
      → is_first user (OrderedMap.first ℤ_discrete site.zero_peer o.adv.peers)
        ≡ leads (roster s id) user
  unfolding is_first roster
  is_first-leads o =
      let read = readers-Implements ℤ_discrete site.zero_peer o.adv.peers o.roster o.peers in
      rw (load, o.at, read.2, read.4) (on_entries o.roster)
    where
      on_entries :
          (ps : List (ℤ × Peer)) → is_first user (head_entry ps) ≡ leads (some (names ps)) user
      on_entries [] = refl
      on_entries ((u, peer) ∷ ps) = refl

  update_host-Answers :
      Answers (leads (roster s id) user) s (update_host site (some id) user s)
      × (leads (roster s id) user ≡ true
          → (t : Advertisements) (w : Writes) → update_host site (some id) user s ≡ some (w, t)
          → host_of (match_at t id) ≡ some user)
  unfolding update_host host_found get_advertisement deref assign match_at Advertisement.set_host_id
  update_host-Answers =
      let o = found-Owns s v.0 id p v.1 load in
      let first = is_first-leads o in
      elim (Bool-cases (leads (roster s id) user)) [
        | inr n ↦ (
          unchanged _ false s _ v n (ground (arith, load, o.at, first, n)),
          λ e. absurd (ground (arith, n, e)),
        )
        | inl h ↦ elim (Bool-cases (eq_ℤ o.adv.host_id user)) [
          | inl e ↦ (
            unchanged _ true s _ v h (ground (arith, load, o.at, first, h, e)),
            λ _ t w r. ground (arith, load, o.at, first, h, e, r),
          )
          | inr e ↦ (
            record {
              t = written s p (Advertisement.set_host_id user o.adv);
              run = ground (arith, load, o.at, first, h, e);
              kept = written-Kept s v id p o load _ refl refl;
              same = λ n. absurd (ground (arith, h, n));
            },
            λ _ t w r. ground (arith, load, o.at, first, h, e, r),
          )
        ]
      ]

-- From a valid state UpdateHost answers without a panic, with success exactly if the match exists and the user
-- is the first to have joined of those that are in it. Then the user is the host of the match; otherwise
-- nothing changes. The state is valid and every match keeps its users.
pub update_host-leads :
    (site : Site) (id user : ℤ) (s : Advertisements)
    → IsValid s
    → (t : Advertisements) × (update_host site (some id) user s
        ≡ some ((if leads (roster s id) user then succeeds else fails), t))
      × Kept s t
      × (leads (roster s id) user ≡ true → host_of (match_at t id) ≡ some user)
      × (leads (roster s id) user ≡ false → t ≡ s)
unfolding update_host host_found get_advertisement roster match_at
update_host-leads site id user s v = elim (Option-cases (OrderedMap.load ℤ_discrete s.store id)) [
  | inl n ↦ (s, ground (arith, n), Kept-refl s v, λ h. absurd (ground (arith, n, h)), λ _. refl)
  | inr (p, load) ↦
      let (o, host) = update_host-Answers site user id s v p load in
      (o.t, o.run, o.kept, λ h. host h o.t _ o.run, o.same)
]
