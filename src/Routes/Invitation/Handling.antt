-- ===== src/Routes/Invitation/Handling.antt =====
-- server/internal/routes/game/invitation: what the three handlers do to the invitations that are open.
use fragua_age.Prelude.{
  ℕ, ◌≡◌, sym, subst, inl, inr, true, false, Option, none, some, arith, is_some, Option-cases,
  Bool-cases, if◌then◌else◌,
}
use fragua_age.Prelude.Int.{ℤ, ℤ_discrete, eq_String}
use fragua_age.OrderedMap
use fragua_age.Peer
use fragua_age.Peer.{Peer}
use fragua_age.User.{User}
use fragua_age.Advertisement.{Advertisement}
use fragua_age.Advertisements.{Advertisements, deref, assign, get_advertisement}
use fragua_age.Advertisements.Valid.{IsValid, found-Owns}
use fragua_age.Advertisements.Writing.{found}
use fragua_age.Routes.{Site, Post}
use fragua_age.Routes.Invitation.{
  CancelRequest, ExtendRequest, ReplyRequest, peer_call, notice, answer, extend_by, extend_at,
  extend_message, extend_invitation, cancel_by, cancel_at, cancel_message, cancel_invitation,
  reply_by, reply_at, reply_message, reply_to_invitation,
}
use fragua_age.Routes.Invitation.Open.{
  Invitation, Handled, refused, called, invite_lem, uninvite_lem, addressee-notice,
}

-- The invitation of a user by a peer of a match, if both are known.
abbrev pub invitation : ℤ → Advertisement → Option User → Option User → Option Invitation
invitation id adv none invitee = none
invitation id adv (some inviter) none = none
invitation id adv (some inviter) (some invitee) =
    if is_some (OrderedMap.load ℤ_discrete adv.peers inviter.id)
    then some (id, (inviter.id, invitee.id))
    else none

abbrev pub extended : Site → ExtendRequest → ℤ → Advertisements → Option Invitation
extended site q user s = elim (found s q.cancel.advertisement_id) [
  | none ↦ none
  | some adv ↦
      if eq_String adv.password q.advertisement_password
      then invitation q.cancel.advertisement_id adv (site.users user) (site.users q.cancel.user_id)
      else none
]

abbrev pub withdrawn : Site → CancelRequest → ℤ → Advertisements → Option Invitation
withdrawn site q user s = elim (found s q.advertisement_id) [
  | none ↦ none
  | some adv ↦ invitation q.advertisement_id adv (site.users user) (site.users q.user_id)
]

abbrev pub replied : Site → ReplyRequest → ℤ → Advertisements → Option Invitation
replied site q user s = elim (found s q.advertisement_id) [
  | none ↦ none
  | some adv ↦ invitation q.advertisement_id adv (site.users q.inviter_id) (site.users user)
]

abbrev pub inviter : ℤ × ℤ → ℤ
inviter (x, y) = x

abbrev pub invitee : ℤ × ℤ → ℤ
invitee (x, y) = y

module _ (site : Site) (post : Post) (user : ℤ) (u : User) (known : site.users user ≡ some u)
    (s : Advertisements) (v : IsValid s) where
  extend_at-Handled :
      (q : ExtendRequest) (p : ℕ)
      → OrderedMap.load ℤ_discrete s.store q.cancel.advertisement_id ≡ some p
      → Handled post true invitee (extended site q user s) s (extend_at site post q user (some p) s)
  unfolding extend_at extend_by deref peer_call assign answer
  extend_at-Handled q p load =
      let id = q.cancel.advertisement_id in
      let o = found-Owns s v.0 id p v.1 load in
      elim (Bool-cases (eq_String o.adv.password q.advertisement_password)) [
        | inr n ↦
            refused post true invitee s v _ _ (ground (arith, load, o.at, n))
              (ground (arith, o.at, n))
        | inl w ↦ elim (Option-cases (site.users q.cancel.user_id)) [
          | inl n ↦
              refused post true invitee s v _ _ (ground (arith, load, o.at, w, known, n))
                (ground (arith, o.at, w, known, n))
          | inr (x, f) ↦ elim (Option-cases (OrderedMap.load ℤ_discrete o.adv.peers u.id)) [
            | inl n ↦
                refused post true invitee s v _ _ (ground (arith, load, o.at, w, known, f, n))
                  (ground (arith, o.at, w, known, f, n))
            | inr (peer, at) ↦
                let target : extended site q user s ≡ some (id, (u.id, x.id)) =
                  ground (arith, load, o.at, w, known, f, at) in
                let (result, after) = invite_lem x.id peer in
                subst (λ y. Handled post true invitee y s (extend_at site post q user (some p) s))
                  (sym target)
                  (called post true invitee s v id p load o u.id x.id peer at
                    (Peer.invite x.id peer) result after
                    (notice post "ExtendInvitationMessage" x.id (extend_message site post q u)) _
                    (addressee-notice post _ x.id _) (ground (arith, o.at, w, known, f, at)))
          ]
        ]
      ]

  cancel_at-Handled :
      (q : CancelRequest) (p : ℕ)
      → OrderedMap.load ℤ_discrete s.store q.advertisement_id ≡ some p
      → Handled post false invitee
          (withdrawn site q user s)
          s
          (cancel_at site post q user (some p) s)
  unfolding cancel_at cancel_by deref peer_call assign answer
  cancel_at-Handled q p load =
      let id = q.advertisement_id in
      let o = found-Owns s v.0 id p v.1 load in
      elim (Option-cases (site.users q.user_id)) [
        | inl n ↦
            refused post false invitee s v _ _ (ground (arith, load, o.at, known, n))
              (ground (arith, o.at, known, n))
        | inr (x, f) ↦ elim (Option-cases (OrderedMap.load ℤ_discrete o.adv.peers u.id)) [
          | inl n ↦
              refused post false invitee s v _ _ (ground (arith, load, o.at, known, f, n))
                (ground (arith, o.at, known, f, n))
          | inr (peer, at) ↦
              let target : withdrawn site q user s ≡ some (id, (u.id, x.id)) =
                ground (arith, load, o.at, known, f, at) in
              let (result, after) = uninvite_lem x.id peer in
              subst (λ y. Handled post false invitee y s (cancel_at site post q user (some p) s))
                (sym target)
                (called post false invitee s v id p load o u.id x.id peer at
                  (Peer.uninvite x.id peer) result after
                  (notice post "CancelInvitationMessage" x.id (cancel_message site post q u)) _
                  (addressee-notice post _ x.id _) (ground (arith, o.at, known, f, at)))
        ]
      ]

  reply_at-Handled :
      (q : ReplyRequest) (p : ℕ)
      → OrderedMap.load ℤ_discrete s.store q.advertisement_id ≡ some p
      → Handled post false inviter (replied site q user s) s (reply_at site post q user (some p) s)
  unfolding reply_at reply_by deref peer_call assign answer
  reply_at-Handled q p load =
      let id = q.advertisement_id in
      let o = found-Owns s v.0 id p v.1 load in
      elim (Option-cases (site.users q.inviter_id)) [
        | inl n ↦
            refused post false inviter s v _ _ (ground (arith, load, o.at, known, n))
              (ground (arith, o.at, known, n))
        | inr (x, f) ↦ elim (Option-cases (OrderedMap.load ℤ_discrete o.adv.peers x.id)) [
          | inl n ↦
              refused post false inviter s v _ _ (ground (arith, load, o.at, known, f, n))
                (ground (arith, o.at, known, f, n))
          | inr (peer, at) ↦
              let target : replied site q user s ≡ some (id, (x.id, u.id)) =
                ground (arith, load, o.at, known, f, at) in
              let (result, after) = uninvite_lem u.id peer in
              subst (λ y. Handled post false inviter y s (reply_at site post q user (some p) s))
                (sym target)
                (called post false inviter s v id p load o x.id u.id peer at
                  (Peer.uninvite u.id peer) result after
                  (notice post "ReplyInvitationMessage" x.id (reply_message site post q u)) _
                  (addressee-notice post _ x.id _) (ground (arith, o.at, known, f, at)))
        ]
      ]

-- The invitations that are open, as a set: for a user of the session who is known, and from a valid state, each
-- handler panics in no case and answers with success exactly if it accepts the request: the match exists,
-- the two users are known, the inviter is in the match and, for ExtendInvitation, the password is right.
-- Then ExtendInvitation opens this one invitation, CancelInvitation and ReplyToInvitation close it, and the
-- other user is told exactly if that changed the set and this user has a session. No other invitation
-- changes, nor who is in which match, and the state is valid.
pub invitations-Handled :
    (site : Site) (post : Post) (user : ℤ) (u : User) (s : Advertisements)
    → site.users user ≡ some u
    → IsValid s
    → ((q : ExtendRequest)
        → Handled post true invitee
            (extended site q user s)
            s
            (extend_invitation site post (some q) user s))
      × ((q : CancelRequest)
          → Handled post false invitee
              (withdrawn site q user s)
              s
              (cancel_invitation site post (some q) user s))
      × ((q : ReplyRequest)
          → Handled post false inviter
              (replied site q user s)
              s
              (reply_to_invitation site post (some q) user s))
unfolding extend_invitation extend_at cancel_invitation cancel_at reply_to_invitation reply_at
    get_advertisement
invitations-Handled site post user u s known v = (
  λ q. elim (Option-cases (OrderedMap.load ℤ_discrete s.store q.cancel.advertisement_id)) [
    | inl n ↦ refused post true invitee s v _ _ (ground (arith, n)) (ground (arith, n))
    | inr (p, e) ↦
        subst (λ m. Handled post true invitee (extended site q user s) s m) (ground (arith, e))
          (extend_at-Handled site post user u known s v q p e)
  ],
  λ q. elim (Option-cases (OrderedMap.load ℤ_discrete s.store q.advertisement_id)) [
    | inl n ↦ refused post false invitee s v _ _ (ground (arith, n)) (ground (arith, n))
    | inr (p, e) ↦
        subst (λ m. Handled post false invitee (withdrawn site q user s) s m) (ground (arith, e))
          (cancel_at-Handled site post user u known s v q p e)
  ],
  λ q. elim (Option-cases (OrderedMap.load ℤ_discrete s.store q.advertisement_id)) [
    | inl n ↦ refused post false inviter s v _ _ (ground (arith, n)) (ground (arith, n))
    | inr (p, e) ↦
        subst (λ m. Handled post false inviter (replied site q user s) s m) (ground (arith, e))
          (reply_at-Handled site post user u known s v q p e)
  ],
)
