-- ===== src/Routes/Membership/Opening.antt =====
-- server/internal/routes/game/advertisement/host.go: what Host does to the matches and their users.
use fragua_age.Prelude.{
  ℕ, ◌≡◌, refl, ◌⊎◌, sym, ◌∙◌, subst, inl, inr, true, not, ◌&&◌, ◌||◌, Option, none, some, List, [],
  ◌∷◌, ◌++◌, arith, Option-cases, Bool-cases, if◌then◌else◌,
}
use Prim.Native.String.{String}
use fragua_age.Prelude.Int.{ℤ, ℤ_discrete, negsuc, eq_ℤ}
use fragua_age.Json.{Json}
use fragua_age.OrderedMap
use fragua_age.Game.{is_aoe4}
use fragua_age.BattleServer
use fragua_age.BattleServer.{BattleServer, Request}
use fragua_age.Advertisement.{Advertisement}
use fragua_age.Advertisements.{Advertisements, deref, get_advertisement, run-bind}
use fragua_age.Advertisements.Valid.{IsValid, roster, found-Owns}
use fragua_age.Advertisements.Peers.{unsafe_new_peer-roster, unsafe_new_peer-still_there}
use fragua_age.Advertisements.Hosting.{HostRequest, Formats, Draws, draft}
use fragua_age.Advertisements.Hosting.Fresh.{SomeFree, store_advertisement-Hosted}
use fragua_age.Advertisements.Presence.{
  is_in, same, OneMatch, is_in-enlist, is_in_hosted, OneMatch-enters,
}
use fragua_age.User.{User}
use fragua_age.Routes.{Site, Writes, leave_previous}
use fragua_age.Routes.Previous.{Handled, leave_previous-Left, OneMatch-fewer, kept_unless_aoe4}
use fragua_age.Routes.Membership.{
  host_error, host_server, with_joinable, party_found, host_party, host_reply, host_stored,
  host_user, disallowed, host_bound, host,
}

SomeFree-kept :
    (s s' : Advertisements)
    → ((j : ℤ) → roster s j ≡ none → roster s' j ≡ none)
    → (ids : List ℤ) → SomeFree s ids
    → SomeFree s' ids
SomeFree-kept s s' kept [] f = f
SomeFree-kept s s' kept (id ∷ ids) (inl free) = inl (kept id free)
SomeFree-kept s s' kept (id ∷ ids) (inr f) = inr (SomeFree-kept s s' kept ids f)

module _ (site : Site) (r : Request) where
  -- The checks of the party read the matches and change none.
  host_party_outcome :
      (party : ℤ) (s : Advertisements)
      → IsValid s
      → (writes : Writes) × (host_party site r party s ≡ some (writes, s))
  unfolding host_party party_found get_advertisement deref
  host_party_outcome party s v = elim (Bool-cases (eq_ℤ party (negsuc 0))) [
    | inl e ↦ ([], rw e refl)
    | inr e ↦ elim (Option-cases (OrderedMap.load ℤ_discrete s.store party)) [
      | inl n ↦ (host_error site r ∷ [], ground (arith, e, n))
      | inr (p, f) ↦
          let o = found-Owns s v.0 party p v.1 f in
          (
            if not (eq_ℤ o.adv.party (negsuc 0)) then host_error site r ∷ [] else [],
            ground (arith, e, f, o.at),
          )
    ]
  ]

  module _ (formats : Formats) (draws : Draws) (now : ℕ) (b : BattleServer) (q : HostRequest)
      (u : User) where
    abbrev new_match : Advertisement
    new_match = draft formats draws now q (not (BattleServer.is_lan site.network b).0) site.title

    -- The new match has the host as its only user, and no other match has changed.
    record Opened (s : Advertisements) : Type 0 where
      reply : List Json
      t : Advertisements
      id : ℤ
      run : host_stored site r formats draws now b q u s ≡ some (reply, t)
      valid : IsValid t
      entered : (j w : ℤ) → is_in t j w ≡ (is_in s j w || (same id j && same u.id w))

    opened : (s : Advertisements) → IsValid s → SomeFree s draws.ids → Opened s
    unfolding host_stored deref
    opened s v f =
        let (s1, stored, h) =
          store_advertisement-Hosted formats draws now q
            (not (BattleServer.is_lan site.network b).0) site.title s v f in
        let (peer, t, ran, valid, self, others) =
          unsafe_new_peer-roster s1 h.id new_match.ip u.id u.stat_id q.party q.race q.team []
            h.valid h.alone in
        let there =
          unsafe_new_peer-still_there s1 h.id new_match.ip u.id u.stat_id q.party q.race q.team
            s.next (ground (arith, h.placed)) in
        let entered = is_in-enlist s1 t h.id u.id [] h.alone others self in
        let as_before = is_in_hosted s s1 h.id h.was_free h.alone h.others in
        elim (Option-cases (t.heap s.next)) [
          | inl n ↦ absurd (ground (arith, n, ran, there))
          | inr (adv, at) ↦ record {
            reply = host_reply site r b adv (some peer);
            t = t;
            id = h.id;
            run = ground (arith, stored, h.placed, ran, at);
            valid = valid;
            entered = λ j w. ground (arith, entered j w, as_before j w);
          }
        ]

  refused :
      (s : Advertisements) (m : Option (Writes × Advertisements)) (writes : Writes)
      → m ≡ some (writes, s)
      → IsValid s
      → Handled site.title s m
  refused s m writes run v = record {
    writes = writes;
    t = s;
    run = run;
    valid = v;
    one = λ title one. one;
  }

  module _ (formats : Formats) (draws : Draws) (now : ℕ) (b : BattleServer) (s : Advertisements)
      (v : IsValid s) (f : SomeFree s draws.ids) where
    known_host :
        (q : HostRequest) (u : User)
        → Handled site.title s (host_user site r formats draws now b q (some u) s)
    unfolding host_user
    known_host q u =
        let (s1, left) = leave_previous-Left site.title s u.id v in
        let (warnings, party) = host_party_outcome q.party s1 left.valid in
        let o =
          opened formats draws now b q u s1 left.valid
            (SomeFree-kept s s1 left.unlisted draws.ids f) in
        record {
          writes = warnings ++ o.reply ∷ [];
          t = o.t;
          run =
              run-bind (leave_previous site.title u.id) _ s s1 tt left.run
              ∙ run-bind (host_party site r q.party) _ s1 s1 warnings party
              ∙ run-bind (host_stored site r formats draws now b q u) _ s1 o.t o.reply o.run;
          valid = o.valid;
          one = λ title one.
              OneMatch-enters s1 o.t o.id u.id (OneMatch-fewer s s1 left.fewer one)
                (left.gone title one) o.entered;
        }

    any_host :
        (q : HostRequest) (u : Option User)
        → Handled site.title s (host_user site r formats draws now b q u s)
    unfolding host_user
    any_host q none = refused s _ (host_error site r ∷ []) refl v
    any_host q (some u) = known_host q u

    bound :
        (q : Option HostRequest) → Handled site.title s (host_bound site r formats draws now b q s)
    unfolding host_bound
    bound none = refused s _ (host_error site r ∷ []) refl v
    bound (some q) = elim (Bool-cases (disallowed site r formats draws now b q)) [
      | inl e ↦ refused s _ (host_error site r ∷ []) (rw e refl) v
      | inr e ↦ rw e (any_host (with_joinable site.title q) (site.users q.host_id))
    ]

  host_served :
      (formats : Formats) (draws : Draws) (now : ℕ) (region : String) (q : Option HostRequest)
      (s : Advertisements) (b : BattleServer)
      → host_server site region ≡ some b
      → host site r formats draws now region q s ≡ host_bound site r formats draws now b q s
  unfolding host
  host_served formats draws now region q s b e = ground (arith, e)

  pub handled :
      (formats : Formats) (draws : Draws) (now : ℕ) (region : String) (q : Option HostRequest)
      (s : Advertisements)
      → IsValid s
      → SomeFree s draws.ids
      → Handled site.title s (host site r formats draws now region q s)
  unfolding host
  handled formats draws now region q s v f = elim (Option-cases (host_server site region)) [
    | inl e ↦ refused s _ (host_error site r ∷ []) (ground (arith, e)) v
    | inr (b, e) ↦
        subst (Handled site.title s) (sym (host_served formats draws now region q s b e))
          (bound formats draws now b s v f q)
  ]

-- From a valid state in which every user is in at most one match, or from any valid state if the title is
-- AoE4: if one of the drawn ids is the id of no match, Host answers without a panic and leaves such a
-- state, on every branch.
pub host-OneMatch :
    (site : Site) (r : Request) (formats : Formats) (draws : Draws) (now : ℕ) (region : String)
    (q : Option HostRequest) (s : Advertisements)
    → IsValid s
    → SomeFree s draws.ids
    → is_aoe4 site.title ≡ true ⊎ OneMatch s
    → (writes : Writes) × (t : Advertisements) × (host site r formats draws now region q s
        ≡ some (writes, t))
      × IsValid t
      × (is_aoe4 site.title ≡ true ⊎ OneMatch t)
host-OneMatch site r formats draws now region q s v f one =
    let o = handled site r formats draws now region q s v f in
    (o.writes, o.t, o.run, o.valid, kept_unless_aoe4 site.title _ _ o.one one)
