-- ===== src/Routes/Party.antt =====
-- server/internal/routes/game/party: peerAdd.go, peerUpdate.go, updateHost.go, sendMatchChat.go and
-- shared/peer.go, by the user of the session; server/internal/models/message.go. A peer is shared by the
-- two copies of its map, so writing one stores it again under its key.
pub mod Adding
pub mod Assigning
pub mod Updating
use Prim.Native.String.{String}
use fragua_age.Prelude.{
  ℕ, Bool, true, false, not, ◌&&◌, ◌==◌, Option, none, some, List, [], ◌∷◌, map, length, is_some,
  if◌then◌else◌,
}
use fragua_age.Prelude.Int.{ℤ, negsuc, eq_ℤ, ℤ_discrete}
use fragua_age.Json.{Json, num, str, nat}
use fragua_age.Game.{Title, aoe3, aom}
use fragua_age.OrderedMap
use fragua_age.Peer
use fragua_age.Peer.{Peer}
use fragua_age.Advertisement
use fragua_age.Advertisement.{Advertisement}
use fragua_age.Advertisements.{
  M, pure, ◌>>=◌, ◌>>◌, deref, assign, get_advertisement, unsafe_new_peer, unsafe_remove_peer,
}
use fragua_age.User.{User}
use fragua_age.Routes.{Site, Writes, fails, succeeds}
use fragua_age.Routes.Changes.{Live, Messages, present}

-- peerRequest
pub record PeerRequest : Type 0 where
  pub match_id : ℤ
  pub profile_ids : List ℤ
  pub race_ids : List ℤ
  pub team_ids : List ℤ

-- ParseParameters
unfoldable pub parse_parameters : Option PeerRequest → Option PeerRequest
parse_parameters none = none
parse_parameters (some q) =
    if (length q.profile_ids == length q.race_ids) && (length q.race_ids == length q.team_ids)
    then some q
    else none

-- the users of the profiles, if all are known
unfoldable pub users_of : Site → List ℤ → Option (List User)
users_of site [] = some []
users_of site (id ∷ ids) =
    let rest = users_of site ids in
    elim (site.users id) [
      | none ↦ none
      | some u ↦ elim rest [ none ↦ none | some us ↦ some (u ∷ us) ]
    ]

-- the loop that adds the users, and stops at the first that is not added
add_peers : ℤ → String → List User → List ℤ → List ℤ → M (List ℤ)
add_peers id ip (u ∷ us) (race ∷ races) (team ∷ teams) =
    let rest = add_peers id ip us races teams in
    do
      peer ← unsafe_new_peer id ip u.id u.stat_id (negsuc 0) race team
      (if is_some peer then (do ids ← rest; pure (u.id ∷ ids)) else pure [])
add_peers id ip _ _ _ = pure []

remove_peers : ℤ → List ℤ → M (Unit {0})
remove_peers id [] = pure tt
remove_peers id (u ∷ us) =
    let rest = remove_peers id us in do removed ← unsafe_remove_peer id u; rest

-- After the loop `ok` is what the last lookup of a user has left in it, if there was one.
added : ℤ → List User → List ℤ → M Writes
unfolding remove_peers
added id us ids =
    if length ids == length us
    then pure succeeds
    else (do remove_peers id ids; pure (if length us == 0 then fails else succeeds))

add_users : PeerRequest → Advertisement → Option (List User) → M Writes
unfolding add_peers added
add_users q adv none = pure fails
add_users q adv (some us) = do
  ids ← add_peers q.match_id adv.ip us q.race_ids q.team_ids
  added q.match_id us ids

add_found : Site → PeerRequest → ℤ → Option ℕ → M Writes
unfolding deref users_of add_users
add_found site q user none = pure fails
add_found site q user (some p) = do
  adv ← deref p
  (if eq_ℤ adv.host_id user then add_users q adv (users_of site q.profile_ids) else pure fails)

add_parsed : Site → Option PeerRequest → ℤ → M Writes
unfolding add_found get_advertisement
add_parsed site none user = pure fails
add_parsed site (some q) user = do found ← get_advertisement q.match_id; add_found site q user found

-- PeerAdd
unfoldable pub peer_add : Site → Option PeerRequest → ℤ → M Writes
unfolding parse_parameters add_parsed
peer_add site q user = add_parsed site (parse_parameters q) user

-- A write through the pointer to a peer.
unfoldable pub update_peer : (Peer → Peer) → ℤ → Advertisement → Advertisement
update_peer f user adv = elim (OrderedMap.load ℤ_discrete adv.peers user) [
  | none ↦ adv
  | some peer ↦ record adv { peers = (OrderedMap.store ℤ_discrete user (f peer) none adv.peers).1 }
]

-- the ids of the users of the profiles, if all are known and in the match
unfoldable pub peers_of : Site → Advertisement → List ℤ → Option (List ℤ)
peers_of site adv [] = some []
peers_of site adv (id ∷ ids) =
    let rest = peers_of site adv ids in
    elim (site.users id) [
      | none ↦ none
      | some u ↦ elim (OrderedMap.load ℤ_discrete adv.peers u.id) [
        | none ↦ none
        | some _ ↦ elim rest [ none ↦ none | some us ↦ some (u.id ∷ us) ]
      ]
    ]

unfoldable pub update_peers : List ℤ → List ℤ → List ℤ → Advertisement → Advertisement
unfolding update_peer
update_peers (u ∷ us) (race ∷ races) (team ∷ teams) adv =
    update_peers us races teams (update_peer (Peer.update_mutable race team) u adv)
update_peers _ _ _ adv = adv

update_users : PeerRequest → ℕ → Advertisement → Option (List ℤ) → M Writes
unfolding assign update_peers
update_users q p adv none = pure fails
update_users q p adv (some us) = do
  assign p (update_peers us q.race_ids q.team_ids adv)
  pure succeeds

peers_found : Site → PeerRequest → ℤ → Option ℕ → M Writes
unfolding deref peers_of update_users
peers_found site q user none = pure fails
peers_found site q user (some p) = do
  adv ← deref p
  (if eq_ℤ adv.host_id user
      then update_users q p adv (peers_of site adv q.profile_ids)
      else pure fails)

peers_parsed : Site → Option PeerRequest → ℤ → M Writes
unfolding peers_found get_advertisement
peers_parsed site none user = pure fails
peers_parsed site (some q) user = do
  found ← get_advertisement q.match_id
  peers_found site q user found

-- PeerUpdate
unfoldable pub peer_update : Site → Option PeerRequest → ℤ → M Writes
unfolding parse_parameters peers_parsed
peer_update site q user = peers_parsed site (parse_parameters q) user

is_first : ℤ → Option (ℤ × Peer) → Bool
is_first user none = false
is_first user (some (first, _)) = eq_ℤ first user

host_found : Site → ℤ → Option ℕ → M Writes
unfolding deref assign is_first
host_found site user none = pure fails
host_found site user (some p) = do
  adv ← deref p
  (if is_first user (OrderedMap.first ℤ_discrete site.zero_peer adv.peers)
      then (if eq_ℤ adv.host_id user
          then pure succeeds
          else (do assign p (Advertisement.set_host_id user adv); pure succeeds))
      else pure fails)

-- UpdateHost
unfoldable pub update_host : Site → Option ℤ → ℤ → M Writes
unfolding host_found get_advertisement
update_host site none user = pure fails
update_host site (some id) user = do found ← get_advertisement id; host_found site user found

pub record ChatRequest : Type 0 where
  pub message_type : ℕ
  pub match_id : ℤ
  pub broadcast : Bool
  pub message : String

-- MainMessage: the fields that are encoded
pub record Message : Type 0 where
  pub advertisement_id : ℤ
  pub content : String
  pub typ : ℕ
  pub sender : User

unfoldable pub encode_message : Message → List Json
encode_message m =
    num m.sender.id ∷ str m.content ∷ str m.content ∷ nat m.typ ∷ num m.advertisement_id ∷ []

-- slices.DeleteFunc, for the one title
without_sender : ℤ → List ℤ → List ℤ
without_sender user [] = []
without_sender user (id ∷ ids) =
    let rest = without_sender user ids in if eq_ℤ id user then rest else id ∷ rest

receiver_ids : Title → ℤ → List ℤ → List ℤ
unfolding without_sender
receiver_ids aom user ids = without_sender user ids
receiver_ids _ user ids = ids

-- MakeMessage and the loop over the receivers that have a session
send : Live → ChatRequest → Advertisement → Option (List User) → Option User → Writes × Messages
unfolding encode_message present
send live q adv none u = (fails, [])
send live q adv (some receivers) none = (fails, [])
send live q adv (some receivers) (some u) =
    let message : Message = record {
      advertisement_id = adv.id;
      content = q.message;
      typ = q.message_type;
      sender = u;
    } in
    (
      succeeds,
      map (λ id. (id, encode_message message)) (present live (map (λ (r : User). r.id) receivers)),
    )

chat_found : Site → Live → ChatRequest → List ℤ → ℤ → Option ℕ → M (Writes × Messages)
unfolding deref users_of send receiver_ids
chat_found site live q to user none = pure (fails, [])
chat_found site live q to user (some p) = do
  adv ← deref p
  (if is_some (OrderedMap.load ℤ_discrete adv.peers user)
      then pure
          (send live q adv (users_of site (receiver_ids site.title user to)) (site.users user))
      else pure (fails, []))

-- SendMatchChat; `to` are the profiles that it is sent to, one for the title AoE3
unfoldable pub send_match_chat :
    Site → Live → Option ChatRequest → Option (List ℤ) → ℤ → M (Writes × Messages)
unfolding chat_found get_advertisement
send_match_chat site live none to user = pure (fails, [])
send_match_chat site live (some q) none user = pure (fails, [])
send_match_chat site live (some q) (some to) user = do
  found ← get_advertisement q.match_id
  chat_found site live q to user found
