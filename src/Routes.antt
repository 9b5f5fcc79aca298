-- ===== src/Routes.antt =====
-- server/internal/routes/game/advertisement: the handlers of the match routes, each an action on the
-- matches that returns the responses it writes, in turn. A request that does not bind is `none`.
-- Each critical section of a handler runs as a whole, and so does the handler.
pub mod Membership
pub mod Previous
pub mod Changes
pub mod Reachable
pub mod Find
pub mod Observing
pub mod Party
pub mod Invitation
pub mod Chat
use Prim.Native.String.{String}
use fragua_age.Prelude.{ℕ, Bool, Option, none, some, List, [], ◌∷◌, ◌++◌, if◌then◌else◌}
use fragua_age.Prelude.Int.{ℤ, pos}
use fragua_age.Json.{Json, num, str, array}
use fragua_age.Game.{Title, is_aoe4}
use fragua_age.BattleServer
use fragua_age.BattleServer.{Network, BattleServer, BattleServers}
use fragua_age.Peer.{Peer}
use fragua_age.User.{User, Runtime}
use fragua_age.Advertisements.{M, pure, ◌>>=◌, ◌>>◌, deref, unsafe_remove_peer}
use fragua_age.Advertisements.Search.{get_user_advertisement}

-- What a handler reads of its game and its surroundings.
pub record Site : Type 0 where
  pub title : Title
  pub battle_servers : BattleServers
  pub network : Network
  -- Users().GetUserById
  pub users : ℤ → Option User
  -- the zero value that a missing key of a map of peers would read
  pub zero_peer : Peer

-- What a handler reads of the sessions: Sessions().GetByUserId, and of that session
-- GetClientLibVersion.
pub record Post : Type 0 where
  pub runtime : Runtime
  pub client_version : ℤ → Option ℕ

-- A message that is sent or stored: the user, the action and the content.
abbrev pub Envelope : Type 0
Envelope = ℤ × (String × List Json)

-- the responses of a handler
abbrev pub Writes : Type 0
Writes = List (List Json)

abbrev pub fails : Writes
fails = (num (pos 2) ∷ []) ∷ []

abbrev pub succeeds : Writes
succeeds = (num (pos 0) ∷ []) ∷ []

-- "Leave the previous match if the user is already in one", in Join and in Host
leave_match : Option ℕ → ℤ → M (Unit {0})
unfolding deref
leave_match none user = pure tt
leave_match (some p) user = do adv ← deref p; removed ← unsafe_remove_peer adv.id user; pure tt

unfoldable pub leave_previous : Title → ℤ → M (Unit {0})
unfolding leave_match
leave_previous title user s =
    if is_aoe4 title
    then some (tt, s)
    else (do found ← get_user_advertisement user; leave_match found user) s
