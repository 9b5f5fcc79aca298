-- ===== src/Advertisements/Peers.antt =====
-- Entering and leaving a match.
use Prim.Native.String.{String}
use fragua_age.Prelude.{
  ℕ, is_some, inl, inr, Option-cases, ◌≡◌, ◌≢◌, refl, sym, ◌∙◌, ap, Bool, true, false, Option, none,
  some, List, [], ◌∷◌, ◌++◌, arith,
}
use fragua_age.Prelude.Int.{ℤ, ℤ_discrete}
use fragua_age.OrderedMap
use fragua_age.OrderedMap.{OrderedMap}
use fragua_age.OrderedMap.Index.{names, names-append, index_of}
use fragua_age.OrderedMap.Refinement.{spec_store, store-Implements, index-names}
use fragua_age.Peer
use fragua_age.Peer.{Peer}
use fragua_age.Advertisement.{Advertisement}
use fragua_age.Advertisements.{Advertisements, unsafe_new_peer}
use fragua_age.Advertisements.Valid.{
  IsValid, Behind-roster, behind_none, roster, written, written-Shows, roster-written_self,
  roster-written_ne,
}

-- A user enters a list of users once, at its end.
abbrev pub enlist : ℤ → List ℤ → List ℤ
enlist user users = elim (index_of ℤ_discrete user users) [
  | none ↦ users ++ user ∷ []
  | some _ ↦ users
]

names-spec_store :
    (user : ℤ) (peer : Peer) (ps : List (ℤ × Peer))
    → names (spec_store ℤ_discrete user peer (some (λ _. false)) ps).1 ≡ enlist user (names ps)
unfolding spec_store
names-spec_store user peer ps =
    ground (arith, index-names ℤ_discrete user ps, names-append ps user peer)

-- The pointer leads to a match after the run.
abbrev pub still_there : ℕ → Option (Option Peer × Advertisements) → Bool
still_there p none = true
still_there p (some (_, s')) = is_some (s'.heap p)

module _ (s : Advertisements) (id : ℤ) (ip : String) (user stat party race team : ℤ) where
  -- In a valid state UnsafeNewPeer for a match that exists panics in no case. The user is then in it,
  -- once, behind those that were there before; no other match changes, and the state stays valid.
  pub unsafe_new_peer-roster :
      (users : List ℤ)
      → IsValid s
      → roster s id ≡ some users
      → (peer : Peer) × (s' : Advertisements) × (unsafe_new_peer id ip user stat party race team s
          ≡ some (some peer, s'))
        × IsValid s'
        × (roster s' id ≡ some (enlist user users))
        × ((j : ℤ) → j ≢ id → roster s' j ≡ roster s j)
  unfolding unsafe_new_peer Peer.new_peer
  unsafe_new_peer-roster users (es, v) r =
      let b = Behind-roster s es id users v r in
      let o = b.owns in
      let peer : Peer = Peer.new_peer id ip user stat party race team in
      let f : Option (Peer → Bool) = some (λ _. false) in
      let st = OrderedMap.store ℤ_discrete user peer f o.adv.peers in
      let (e, good) = store-Implements ℤ_discrete o.adv.peers o.roster o.peers user peer f in
      let adv' : Advertisement = record o.adv { peers = st.1 } in
      let ps = (spec_store ℤ_discrete user peer f o.roster).1 in
      (
        st.0.1,
        written s b.pointer adv',
        ground (arith, b.found, o.at, e),
        (es, written-Shows s es v id users b adv' ps refl good),
        roster-written_self s es v id users b adv' ps refl good
            ∙ ap some (names-spec_store user peer o.roster ∙ ap (enlist user) (sym b.users_eq)),
        roster-written_ne s es v id users b adv' ps refl good,
      )

  -- If there is no such match, UnsafeNewPeer returns nil and changes nothing.
  pub unsafe_new_peer_missing :
      roster s id ≡ none
      → IsValid s
      → unsafe_new_peer id ip user stat party race team s ≡ some (none, s)
  unfolding unsafe_new_peer
  unsafe_new_peer_missing r (es, v) = ground (arith, behind_none s es id v r)

  -- UnsafeNewPeer leaves no pointer dangling.
  pub unsafe_new_peer-still_there :
      (p : ℕ)
      → is_some (s.heap p) ≡ true
      → still_there p (unsafe_new_peer id ip user stat party race team s) ≡ true
  unfolding unsafe_new_peer
  unsafe_new_peer-still_there p h = elim (Option-cases (OrderedMap.load ℤ_discrete s.store id)) [
    | inl e ↦ ground (arith, e, h)
    | inr (q, e) ↦ elim (Option-cases (s.heap q)) [
      | inl n ↦ ground (arith, e, n)
      | inr (adv, a) ↦ ground (arith, e, a, h)
    ]
  ]
