-- ===== src/Tests/Party.antt =====
-- The theorems on the routes of a party and of invitations, applied to the match of the lobby.
use fragua_age.Prelude.{◌≡◌, refl, true, false, some, [], ◌∷◌, if◌then◌else◌}
use fragua_age.Prelude.Int.{ℤ, pos}
use fragua_age.Advertisements.{Advertisements}
use fragua_age.Advertisements.Valid.{roster}
use fragua_age.Advertisements.Writing.{Kept}
use fragua_age.Routes.{fails, succeeds}
use fragua_age.Routes.Changes.Answering.{match_at}
use fragua_age.Routes.Party.{PeerRequest, peer_update, update_host}
use fragua_age.Routes.Party.Updating.{
  accepts, peer_at, peer_after, peer_update-Kept, leads, host_of, update_host-leads,
}
use fragua_age.Routes.Invitation.{
  CancelRequest, ExtendRequest, ReplyRequest, extend_invitation, cancel_invitation,
  reply_to_invitation,
}
use fragua_age.Routes.Invitation.Open.{Handled}
use fragua_age.Routes.Invitation.Handling.{
  extended, withdrawn, replied, invitee, inviter, invitations-Handled,
}
use fragua_age.Tests.{user, post, site, lobby, lobby-facts}

abbrev adding : PeerRequest
adding = record {
  match_id = pos 5;
  profile_ids = pos 11 ∷ [];
  race_ids = pos 1 ∷ [];
  team_ids = pos 2 ∷ [];
}

abbrev updating : PeerRequest
updating = record {
  match_id = pos 5;
  profile_ids = pos 10 ∷ [];
  race_ids = pos 3 ∷ [];
  team_ids = pos 1 ∷ [];
}

peer_update-Kept_example :
    (t : Advertisements) × (peer_update site (some updating) (pos 10) lobby
      ≡ some ((if accepts site (some updating) (pos 10) lobby then succeeds else fails), t))
    × Kept lobby t
    × (accepts site (some updating) (pos 10) lobby ≡ false → t ≡ lobby)
    × ((j w : ℤ)
        → peer_at t j w ≡ (
            if accepts site (some updating) (pos 10) lobby
            then peer_after site (some updating) lobby j w
            else peer_at lobby j w))
peer_update-Kept_example = peer_update-Kept site (some updating) (pos 10) lobby lobby-facts.0

update_host-leads_example :
    (t : Advertisements) × (update_host site (some (pos 5)) (pos 10) lobby
      ≡ some ((if leads (roster lobby (pos 5)) (pos 10) then succeeds else fails), t))
    × Kept lobby t
    × (leads (roster lobby (pos 5)) (pos 10) ≡ true → host_of (match_at t (pos 5)) ≡ some (pos 10))
    × (leads (roster lobby (pos 5)) (pos 10) ≡ false → t ≡ lobby)
update_host-leads_example = update_host-leads site (pos 5) (pos 10) lobby lobby-facts.0

invitations-Handled_example :
    ((q : ExtendRequest)
      → Handled post true invitee
          (extended site q (pos 10) lobby)
          lobby
          (extend_invitation site post (some q) (pos 10) lobby))
    × ((q : CancelRequest)
        → Handled post false invitee
            (withdrawn site q (pos 10) lobby)
            lobby
            (cancel_invitation site post (some q) (pos 10) lobby))
    × ((q : ReplyRequest)
        → Handled post false inviter
            (replied site q (pos 10) lobby)
            lobby
            (reply_to_invitation site post (some q) (pos 10) lobby))
invitations-Handled_example =
    invitations-Handled site post (pos 10) (user 10) lobby refl lobby-facts.0
