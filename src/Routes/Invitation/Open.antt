-- ===== src/Routes/Invitation/Open.antt =====
-- server/internal/routes/game/invitation: the invitations that are open, against the set of them.
use Prim.Native.String.{String}
use fragua_age.Prelude.{
  ℕ, ◌≡◌, refl, sym, ◌∙◌, ap, subst, inl, inr, Bool, true, false, not, ◌&&◌, Option, none, some,
  List, arith, is_some, test, ite, Option-cases, Bool-cases, if◌then◌else◌,
}
use fragua_age.Prelude.Int.{ℤ, ℤ_discrete}
use fragua_age.Json.{Json}
use fragua_age.GoMap
use fragua_age.GoMap.{get-set, get-del}
use fragua_age.SafeMap
use fragua_age.OrderedMap
use fragua_age.OrderedMap.Refinement.{
  Implements, lookup, spec_store, store-Implements, lookup-replace_at,
}
use fragua_age.OrderedMap.Iteration.{load-Implements}
use fragua_age.Peer
use fragua_age.Peer.{Peer}
use fragua_age.Advertisement.{Advertisement}
use fragua_age.Advertisements.{Advertisements}
use fragua_age.Advertisements.Valid.{Owns, IsValid, written}
use fragua_age.Advertisements.Presence.{same}
use fragua_age.Advertisements.Writing.{found, found-written, Kept, Kept-refl, rewritten-Kept}
use fragua_age.Routes.{Post, Envelope, fails, succeeds}
use fragua_age.Routes.Party.{update_peer}
use fragua_age.Routes.Party.Assigning.{update_peer-SameUsers}
use fragua_age.Routes.Invitation.{Reply, notice, answer}

abbrev pub invites : Peer → ℤ → Bool
invites peer b = is_some (GoMap.get ℤ_discrete peer.invites.wo b)

abbrev pub invites_in : Advertisement → ℤ → ℤ → Bool
invites_in adv a b = elim (OrderedMap.load ℤ_discrete adv.peers a) [
  | none ↦ false
  | some peer ↦ invites peer b
]

-- The user `a` has invited `b` to the match `j`, and the invitation is open.
abbrev pub is_open : Advertisements → ℤ → ℤ → ℤ → Bool
is_open s j a b = elim (found s j) [ none ↦ false | some adv ↦ invites_in adv a b ]

pub invite_lem :
    (w : ℤ) (peer : Peer)
    → ((Peer.invite w peer).0 ≡ not (invites peer w))
      × ((b : ℤ) → invites (Peer.invite w peer).1 b ≡ (if same w b then true else invites peer b))
unfolding Peer.invite SafeMap.set_store SafeMap.store SafeMap.update_read_only
invite_lem w peer = elim (Option-cases (GoMap.get ℤ_discrete peer.invites.wo w)) [
  | inl n ↦ (ground (arith, n), λ b. ground (arith, n, get-set ℤ_discrete peer.invites.wo w b tt))
  | inr (x, e) ↦ (
    ground (arith, e),
    λ b.
        elim (ℤ_discrete w b)
          as (λ d. invites (Peer.invite w peer).1 b ≡ (if test d then true else invites peer b)) [
            | yes h ↦ ground (arith, e, h)
            | no h ↦ ground (arith, e)
          ],
  )
]

pub uninvite_lem :
    (w : ℤ) (peer : Peer)
    → ((Peer.uninvite w peer).0 ≡ invites peer w)
      × ((b : ℤ)
          → invites (Peer.uninvite w peer).1 b ≡ (if same w b then false else invites peer b))
unfolding Peer.uninvite SafeMap.set_delete SafeMap.compare_and_delete SafeMap.update_read_only
uninvite_lem w peer = elim (Option-cases (GoMap.get ℤ_discrete peer.invites.wo w)) [
  | inl n ↦ (
    ground (arith, n),
    λ b.
        elim (ℤ_discrete w b)
          as (λ d.
            invites (Peer.uninvite w peer).1 b ≡ (if test d then false else invites peer b)) [
              | yes h ↦ ground (arith, n, h)
              | no h ↦ ground (arith, n)
            ],
  )
  | inr (x, e) ↦ (ground (arith, e), λ b. ground (arith, e, get-del ℤ_discrete peer.invites.wo w b))
]

-- A peer is replaced in its match.
update_peer-invites :
    (peer' : Peer) (user : ℤ) (adv : Advertisement) (ps : List (ℤ × Peer)) (peer : Peer)
    → Implements ℤ_discrete adv.peers ps
    → OrderedMap.load ℤ_discrete adv.peers user ≡ some peer
    → (a b : ℤ)
    → invites_in (update_peer (λ _. peer') user adv) a b
      ≡ (if same user a then invites peer' b else invites_in adv a b)
unfolding update_peer spec_store
update_peer-invites peer' user adv ps peer h e a b =
    let l = sym (load-Implements ℤ_discrete adv.peers ps h user) ∙ e in
    let (_, good) = store-Implements ℤ_discrete adv.peers ps h user peer' none in
    let stored = (OrderedMap.store ℤ_discrete user peer' none adv.peers).1 in
    let now : OrderedMap.load ℤ_discrete stored a
        ≡ ite (ℤ_discrete user a) (some peer') (lookup ℤ_discrete a ps) =
      load-Implements ℤ_discrete stored _ good a
      ∙ ground (arith, l, lookup-replace_at ℤ_discrete a user peer' ps) in
    ground (arith, e, now, load-Implements ℤ_discrete adv.peers ps h a)

-- An invitation: the match, the user that invited and the one that is invited.
abbrev pub Invitation : Type 0
Invitation = ℤ × (ℤ × ℤ)

abbrev pub hits : Option Invitation → ℤ → ℤ → ℤ → Bool
hits none j a b = false
hits (some (i, (x, y))) j a b = same i j && (same x a && same y b)

-- The invitations after one was opened or closed, if there is one.
abbrev pub changed : Bool → Option Invitation → Advertisements → ℤ → ℤ → ℤ → Bool
changed opens target s j a b = if hits target j a b then opens else is_open s j a b

-- Whoever is told of a change of the invitation: `pick` chooses, if that user has a session.
abbrev pub told : Post → Bool → (ℤ × ℤ → ℤ) → Option Invitation → Advertisements → Option ℤ
told post opens pick none s = none
told post opens pick (some (i, (x, y))) s =
    if (if opens then not (is_open s i x y) else is_open s i x y)
    then (if is_some (post.client_version (pick (x, y))) then some (pick (x, y)) else none)
    else none

abbrev pub addressee : Option Envelope → Option ℤ
addressee none = none
addressee (some (user, _)) = some user

-- What a handler does that opens or closes the invitation `target`, if it accepts the request.
pub record Handled (post : Post) (opens : Bool) (pick : ℤ × ℤ → ℤ) (target : Option Invitation)
    (s : Advertisements) (m : Option (Reply × Advertisements)) : Type 0 where
  pub reply : Reply
  pub t : Advertisements
  pub run : m ≡ some (reply, t)
  pub kept : Kept s t
  pub wrote : reply.0 ≡ (if is_some target then succeeds else fails)
  pub sent : addressee reply.1 ≡ told post opens pick target s
  pub now : (j a b : ℤ) → is_open t j a b ≡ changed opens target s j a b

pub addressee-notice :
    (post : Post) (action : String) (receiver : ℤ) (content : ℕ → List Json)
    → addressee (notice post action receiver content)
      ≡ (if is_some (post.client_version receiver) then some receiver else none)
unfolding notice
addressee-notice post action receiver content = elim (Option-cases (post.client_version receiver)) [
  | inl n ↦ ground (arith, n)
  | inr (v, e) ↦ ground (arith, e)
]

module _ (post : Post) (opens : Bool) (pick : ℤ × ℤ → ℤ) (s : Advertisements) (v : IsValid s) where
  pub refused :
      (target : Option Invitation) (m : Option (Reply × Advertisements))
      → target ≡ none
      → m ≡ some ((fails, none), s)
      → Handled post opens pick target s m
  refused target m n e =
      subst (λ x. Handled post opens pick x s m) (sym n)
        (record {
          reply = (fails, none);
          t = s;
          run = e;
          kept = Kept-refl s v;
          wrote = refl;
          sent = refl;
          now = λ j a b. refl;
        })

  module _ (id : ℤ) (p : ℕ) (load : OrderedMap.load ℤ_discrete s.store id ≡ some p)
      (o : Owns s.heap (id, p)) (user w : ℤ) (peer : Peer)
      (at : OrderedMap.load ℤ_discrete o.adv.peers user ≡ some peer) (r : Bool × Peer)
      (result : r.0 ≡ (if opens then not (invites peer w) else invites peer w))
      (after : (b : ℤ) → invites r.1 b ≡ (if same w b then opens else invites peer b)) where
    open_now :
        (j a b : ℤ)
        → is_open (written s p (update_peer (λ _. r.1) user o.adv)) j a b
          ≡ changed opens (some (id, (user, w))) s j a b
    open_now j a b =
        let x = update_peer-SameUsers (λ _. r.1) user o.adv o.roster o.peers in
        let adv' = update_peer (λ _. r.1) user o.adv in
        let e = found-written s v id p o load adv' x.now x.same_id x.good j in
        let f = update_peer-invites r.1 user o.adv o.roster peer o.peers at a b in
        elim (ℤ_discrete j id) [
          | no miss ↦ ground (arith, e, miss)
          | yes hit ↦
              let g : found s j ≡ some o.adv =
                ground (arith, ap (OrderedMap.load ℤ_discrete s.store) hit ∙ load, o.at) in
              elim (ℤ_discrete user a) [
                | no other ↦ ground (arith, e, f, g, hit, other)
                | yes self ↦ ground (
                  arith,
                  e,
                  f,
                  g,
                  hit,
                  self,
                  after b,
                  ap (OrderedMap.load ℤ_discrete o.adv.peers) (sym self) ∙ at,
                )
              ]
        ]

    pub called :
        (message : Option Envelope) (m : Option (Reply × Advertisements))
        → addressee message
          ≡ (if is_some (post.client_version (pick (user, w))) then some (pick (user, w)) else none)
        → m ≡ some (answer message (some r.0), written s p (update_peer (λ _. r.1) user o.adv))
        → Handled post opens pick (some (id, (user, w))) s m
    unfolding answer
    called message m sends e =
        let x = update_peer-SameUsers (λ _. r.1) user o.adv o.roster o.peers in
        let was : is_open s id user w ≡ invites peer w = ground (arith, load, o.at, at) in
        elim (Bool-cases r.0) [
          | inl yes_sent ↦ record {
            reply = (succeeds, message);
            t = written s p (update_peer (λ _. r.1) user o.adv);
            run = ground (arith, e, yes_sent);
            kept = rewritten-Kept s v id p o load _ x.now x.same_id x.good x.users;
            wrote = refl;
            sent = ground (arith, sends, was, result, yes_sent);
            now = open_now;
          }
          | inr not_sent ↦ record {
            reply = (succeeds, none);
            t = written s p (update_peer (λ _. r.1) user o.adv);
            run = ground (arith, e, not_sent);
            kept = rewritten-Kept s v id p o load _ x.now x.same_id x.good x.users;
            wrote = refl;
            sent = ground (arith, was, result, not_sent);
            now = open_now;
          }
        ]
