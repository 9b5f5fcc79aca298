-- ===== src/Routes/Invitation.antt =====
-- server/internal/routes/game/invitation: extendInvitation.go, cancelInvitation.go and
-- replyToInvitation.go. A handler returns its responses and the message that it sends, if any; a user of
-- the session who is unknown is a nil interface, and a call of its method panics.
pub mod Open
pub mod Handling
use Prim.Native.String.{String}
use fragua_age.Prelude.{ℕ, Bool, true, false, Option, none, some, List, [], ◌∷◌, if◌then◌else◌}
use fragua_age.Prelude.Int.{ℤ, ℤ_discrete, eq_String}
use fragua_age.Json.{Json, num, str, array}
use fragua_age.OrderedMap
use fragua_age.Peer
use fragua_age.Peer.{Peer}
use fragua_age.User.{User, encode_profile_info}
use fragua_age.Advertisement.{Advertisement}
use fragua_age.Advertisements.{
  Advertisements, M, pure, ◌>>=◌, ◌>>◌, deref, assign, get_advertisement,
}
use fragua_age.Routes.{Site, Post, Envelope, Writes, fails, succeeds}
use fragua_age.Routes.Party.{update_peer}

-- cancelRequest
pub record CancelRequest : Type 0 where
  pub advertisement_id : ℤ
  pub user_id : ℤ

-- extendRequest
pub record ExtendRequest : Type 0 where
  pub cancel : CancelRequest
  pub advertisement_password : String

pub record ReplyRequest : Type 0 where
  pub advertisement_id : ℤ
  pub accept : Bool
  pub inviter_id : ℤ

abbrev pub Reply : Type 0
Reply = Writes × Option Envelope

-- The result of a call of Invite or Uninvite on the peer of a user, if there is such a peer.
peer_call : (Peer → Bool × Peer) → ℕ → ℤ → Advertisement → M (Option Bool)
unfolding assign update_peer
peer_call f p user adv = elim (OrderedMap.load ℤ_discrete adv.peers user) [
  | none ↦ pure none
  | some peer ↦ do assign p (update_peer (λ _. (f peer).1) user adv); pure (some (f peer).0)
]

-- the notification of a user that has a session
pub notice : Post → String → ℤ → (ℕ → List Json) → Option Envelope
notice post action receiver content = elim (post.client_version receiver) [
  | none ↦ none
  | some version ↦ some (receiver, (action, content version))
]

pub answer : Option Envelope → Option Bool → Reply
answer message none = (fails, none)
answer message (some true) = (succeeds, message)
answer message (some false) = (succeeds, none)

module _ (site : Site) (post : Post) where
  extend_message : ExtendRequest → User → ℕ → List Json
  extend_message q u version =
      array (encode_profile_info post.runtime version u)
      ∷ num q.cancel.advertisement_id
      ∷ str q.advertisement_password
      ∷ []

  -- from the check of the user's peer on; the lookup of the invitee comes after it
  extend_by : ExtendRequest → ℕ → Advertisement → User → Option User → M Reply
  unfolding peer_call notice answer extend_message Peer.invite
  extend_by q p adv u none = pure (fails, none)
  extend_by q p adv u (some invitee) = do
    invited ← peer_call (Peer.invite invitee.id) p u.id adv
    pure (answer (notice post "ExtendInvitationMessage" invitee.id (extend_message q u)) invited)

  extend_at : ExtendRequest → ℤ → Option ℕ → M Reply
  unfolding deref extend_by
  extend_at q user none = pure (fails, none)
  extend_at q user (some p) = do
    adv ← deref p
    (if eq_String adv.password q.advertisement_password
        then elim (site.users user) as (λ _. M Reply) [
          | none ↦ λ s. none
          | some u ↦ extend_by q p adv u (site.users q.cancel.user_id)
        ]
        else pure (fails, none))

  -- ExtendInvitation
  unfoldable pub extend_invitation : Option ExtendRequest → ℤ → M Reply
  unfolding extend_at get_advertisement
  extend_invitation none user = pure (fails, none)
  extend_invitation (some q) user = do
    found ← get_advertisement q.cancel.advertisement_id
    extend_at q user found

  cancel_message : CancelRequest → User → ℕ → List Json
  cancel_message q u version =
      array (encode_profile_info post.runtime version u) ∷ num q.advertisement_id ∷ []

  cancel_by : CancelRequest → ℕ → Advertisement → User → Option User → M Reply
  unfolding peer_call notice answer cancel_message Peer.uninvite
  cancel_by q p adv u none = pure (fails, none)
  cancel_by q p adv u (some invitee) = do
    withdrawn ← peer_call (Peer.uninvite invitee.id) p u.id adv
    pure (answer (notice post "CancelInvitationMessage" invitee.id (cancel_message q u)) withdrawn)

  cancel_at : CancelRequest → ℤ → Option ℕ → M Reply
  unfolding deref cancel_by
  cancel_at q user none = pure (fails, none)
  cancel_at q user (some p) = do
    adv ← deref p
    elim (site.users user) as (λ _. M Reply) [
      | none ↦ λ s. none
      | some u ↦ cancel_by q p adv u (site.users q.user_id)
    ]

  -- CancelInvitation
  unfoldable pub cancel_invitation : Option CancelRequest → ℤ → M Reply
  unfolding cancel_at get_advertisement
  cancel_invitation none user = pure (fails, none)
  cancel_invitation (some q) user = do
    found ← get_advertisement q.advertisement_id
    cancel_at q user found

  reply_message : ReplyRequest → User → ℕ → List Json
  reply_message q u version =
      array (encode_profile_info post.runtime version u)
      ∷ num q.advertisement_id
      ∷ str (if q.accept then "1" else "0")
      ∷ []

  -- An unknown user is a nil interface, a key that no set of invitations has: Uninvite yields false.
  reply_by : ReplyRequest → ℕ → Advertisement → User → Option User → M Reply
  unfolding peer_call notice answer reply_message Peer.uninvite
  reply_by q p adv inviter none = elim (OrderedMap.load ℤ_discrete adv.peers inviter.id) [
    | none ↦ pure (fails, none)
    | some _ ↦ pure (answer none (some false))
  ]
  reply_by q p adv inviter (some u) = do
    answered ← peer_call (Peer.uninvite u.id) p inviter.id adv
    pure (answer (notice post "ReplyInvitationMessage" inviter.id (reply_message q u)) answered)

  reply_at : ReplyRequest → ℤ → Option ℕ → M Reply
  unfolding deref reply_by
  reply_at q user none = pure (fails, none)
  reply_at q user (some p) = do
    adv ← deref p
    elim (site.users q.inviter_id) as (λ _. M Reply) [
      | none ↦ pure (fails, none)
      | some inviter ↦ reply_by q p adv inviter (site.users user)
    ]

  -- ReplyToInvitation
  unfoldable pub reply_to_invitation : Option ReplyRequest → ℤ → M Reply
  unfolding reply_at get_advertisement
  reply_to_invitation none user = pure (fails, none)
  reply_to_invitation (some q) user = do
    found ← get_advertisement q.advertisement_id
    reply_at q user found
