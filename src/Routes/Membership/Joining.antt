-- ===== src/Routes/Membership/Joining.antt =====
-- server/internal/routes/game/advertisement/join.go: what Join does to the matches and their users.
use fragua_age.Prelude.{
  ℕ, ◌≡◌, refl, ◌⊎◌, sym, ◌∙◌, ap, subst, inl, inr, true, false, ◌&&◌, ◌||◌, Option, none, some,
  List, [], ◌∷◌, arith, Option-cases, Bool-cases, if◌then◌else◌,
}
use fragua_age.Prelude.Int.{ℤ, ℤ_discrete}
use fragua_age.Json.{Json}
use fragua_age.OrderedMap
use fragua_age.Game.{is_aoe4}
use fragua_age.BattleServer.{Request}
use fragua_age.Advertisement.{Advertisement}
use fragua_age.Advertisements.{Advertisements, deref, get_advertisement, ◌>>=◌}
use fragua_age.Advertisements.Valid.{IsValid, Owns, roster, found-Owns}
use fragua_age.Advertisements.Peers.{unsafe_new_peer-roster}
use fragua_age.Advertisements.Presence.{is_in, same, OneMatch, is_in-enlist, OneMatch-enters}
use fragua_age.User.{User}
use fragua_age.Routes.{Site, Writes, leave_previous}
use fragua_age.Routes.Previous.{Handled, leave_previous-Left, OneMatch-fewer, kept_unless_aoe4}
use fragua_age.Routes.Membership.{
  JoinRequest, join_error, rejects, wrong_party, join_reply, join_locked, join_found, join_user,
  join,
}

abbrev users_of : Advertisement → List ℤ
users_of adv = (OrderedMap.keys adv.peers).1

module _ (site : Site) (r : Request) (q : JoinRequest) (u : User) where
  -- The user is admitted to the match, whatever `rejects` says.
  record Admitted (adv : Advertisement) (s : Advertisements) : Type 0 where
    reply : List Json
    t : Advertisements
    run :
        join_locked site r q u adv s
        ≡ some ((if rejects q adv then join_error site r ∷ reply ∷ [] else reply ∷ []), t)
    valid : IsValid t
    entered : (j w : ℤ) → is_in t j w ≡ (is_in s j w || (same adv.id j && same u.id w))

  admitted :
      (s : Advertisements) (p : ℕ)
      → IsValid s
      → (o : Owns s.heap (q.id, p)) → OrderedMap.load ℤ_discrete s.store q.id ≡ some p
      → Admitted o.adv s
  unfolding join_locked roster
  admitted s p v o load =
      let adv = o.adv in
      let users = users_of adv in
      let listed : roster s adv.id ≡ some users = rw (o.same_id, load, o.at) refl in
      let (peer, t, ran, valid, self, others) =
        unsafe_new_peer-roster s adv.id adv.ip u.id u.stat_id q.party q.race q.team users v
          listed in
      record {
        reply = join_reply site r adv (some peer);
        t = t;
        run = ground (arith, ran);
        valid = valid;
        entered = is_in-enlist s t adv.id u.id users listed others self;
      }

  -- What Join does once the user is known and has left: it panics in no case.
  record Outcome (s : Advertisements) : Type 0 where
    writes : Writes
    t : Advertisements
    run : (do found ← get_advertisement q.id; join_found site r q u found) s ≡ some (writes, t)
    valid : IsValid t
    one : ((j : ℤ) → is_in s j u.id ≡ false) → OneMatch s → OneMatch t

  refused :
      (s : Advertisements) (writes : Writes)
      → (do found ← get_advertisement q.id; join_found site r q u found) s ≡ some (writes, s)
      → IsValid s
      → Outcome s
  refused s writes run v = record {
    writes = writes;
    t = s;
    run = run;
    valid = v;
    one = λ absent one. one;
  }

  outcome : (s : Advertisements) → IsValid s → Outcome s
  unfolding get_advertisement join_found deref
  outcome s v = elim (Option-cases (OrderedMap.load ℤ_discrete s.store q.id)) [
    | inl e ↦ refused s (join_error site r ∷ []) (ground (arith, e)) v
    | inr (p, e) ↦
        let o = found-Owns s v.0 q.id p v.1 e in
        elim (Bool-cases (wrong_party q o.adv)) [
          | inl wrong ↦ refused s (join_error site r ∷ []) (ground (arith, e, o.at, wrong)) v
          | inr right ↦
              let a = admitted s p v o e in
              record {
                writes = if rejects q o.adv then join_error site r ∷ a.reply ∷ [] else a.reply ∷ [];
                t = a.t;
                run = ground (arith, e, o.at, right, a.run);
                valid = a.valid;
                one = λ absent one. OneMatch-enters s a.t o.adv.id u.id one absent a.entered;
              }
        ]
  ]

pub join-Handled :
    (site : Site) (r : Request) (q : Option JoinRequest) (user : ℤ) (s : Advertisements)
    → IsValid s
    → Handled site.title s (join site r q user s)
unfolding join join_user
join-Handled site r none user s v = record {
  writes = join_error site r ∷ [];
  t = s;
  run = refl;
  valid = v;
  one = λ title one. one;
}
join-Handled site r (some q) user s v = elim (Option-cases (site.users user)) [
  | inl e ↦ record {
    writes = join_error site r ∷ [];
    t = s;
    run = rw e;
    valid = v;
    one = λ title one. one;
  }
  | inr (u, e) ↦
      let (s', left) = leave_previous-Left site.title s u.id v in
      let o = outcome site r q u s' left.valid in
      record {
        writes = o.writes;
        t = o.t;
        run = ground (arith, e, left.run, o.run);
        valid = o.valid;
        one = λ title one. o.one (left.gone title one) (OneMatch-fewer s s' left.fewer one);
      }
]

-- From a valid state in which every user is in at most one match, or from any valid state if the title is
-- AoE4, Join answers without a panic and leaves such a state, on every branch.
pub join-OneMatch :
    (site : Site) (r : Request) (q : Option JoinRequest) (user : ℤ) (s : Advertisements)
    → IsValid s
    → is_aoe4 site.title ≡ true ⊎ OneMatch s
    → (writes : Writes) × (t : Advertisements) × (join site r q user s ≡ some (writes, t))
      × IsValid t
      × (is_aoe4 site.title ≡ true ⊎ OneMatch t)
join-OneMatch site r q user s v one =
    let h = join-Handled site r q user s v in
    (h.writes, h.t, h.run, h.valid, kept_unless_aoe4 site.title _ _ h.one one)

-- The state of a run, from its result.
abbrev state_of : Advertisements → Option (Unit {0} × Advertisements) → Advertisements
state_of s none = s
state_of s (some (_, t)) = t

-- For a known user who, having left the previous match, asks for a match that exists, with the right
-- party, Join puts the user into the match also where its checks of the password, of the checksums and
-- of the other settings fail: it then only writes an error before the reply.
pub join-admits :
    (site : Site) (r : Request) (q : JoinRequest) (user : ℤ) (s s' : Advertisements) (u : User)
    (p : ℕ) (adv : Advertisement)
    → IsValid s
    → site.users user ≡ some u
    → leave_previous site.title u.id s ≡ some (tt, s')
    → OrderedMap.load ℤ_discrete s'.store q.id ≡ some p
    → s'.heap p ≡ some adv
    → wrong_party q adv ≡ false
    → (reply : List Json) × (t : Advertisements) × (join site r (some q) user s
        ≡ some ((if rejects q adv then join_error site r ∷ reply ∷ [] else reply ∷ []), t))
      × (is_in t q.id u.id ≡ true)
unfolding join join_user get_advertisement join_found deref
join-admits site r q user s s' u p adv v known run load at party =
    let (s1, left) = leave_previous-Left site.title s u.id v in
    let same_state : s1 ≡ s' = ap (state_of s) (sym left.run ∙ run) in
    let v' : IsValid s' = subst IsValid same_state left.valid in
    let o = found-Owns s' v'.0 q.id p v'.1 load in
    let a = admitted site r q u s' p v' o load in
    let same_adv : o.adv ≡ adv = ap (λ x. elim x [ none ↦ adv | some y ↦ y ]) (sym o.at ∙ at) in
    (
      a.reply,
      a.t,
      ground (arith, known, run, load, at, party, a.run, same_adv),
      ground (arith, a.entered q.id u.id, o.same_id),
    )
