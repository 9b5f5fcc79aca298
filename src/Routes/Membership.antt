-- ===== src/Routes/Membership.antt =====
-- server/internal/routes/game/advertisement: leave.go, join.go and host.go.
pub mod Joining
pub mod Opening
pub mod Departing
use Prim.Native.String.{String}
use fragua_age.Prelude.{
  ℕ, Bool, true, false, not, ◌&&◌, ◌||◌, ◌==◌, Option, none, some, List, [], ◌∷◌, ◌++◌,
  if◌then◌else◌,
}
use fragua_age.Prelude.Int.{ℤ, pos, negsuc, eq_ℤ, eq_String}
use fragua_age.Json.{Json, null, num, str, nat, array}
use fragua_age.Game.{Title, aoe1, aoe3, aom, is_aoe4}
use fragua_age.BattleServer
use fragua_age.BattleServer.{BattleServer, Request}
use fragua_age.Peer
use fragua_age.Peer.{Peer}
use fragua_age.Advertisement
use fragua_age.Advertisement.{Advertisement, UpdateRequest, Settings}
use fragua_age.Advertisements.{
  M, pure, ◌>>=◌, ◌>>◌, deref, get_advertisement, unsafe_new_peer, unsafe_remove_peer,
}
use fragua_age.Advertisements.Hosting.{HostRequest, Formats, Draws, store_advertisement}
use fragua_age.User.{User}
use fragua_age.Routes.{Site, Writes, fails, succeeds, leave_previous}

-- Leave, by the user of the session
leave_found : Option ℕ → ℤ → M Writes
unfolding deref
leave_found none user = pure fails
leave_found (some p) user = do
  adv ← deref p
  success ← unsafe_remove_peer adv.id user
  pure (if success then succeeds else fails)

unfoldable pub leave : Option ℤ → ℤ → M Writes
unfolding leave_found get_advertisement
leave none user = pure fails
leave (some id) user = do found ← get_advertisement id; leave_found found user

pub record JoinRequest : Type 0 where
  pub id : ℤ
  pub app_binary_checksum : ℤ
  pub data_checksum : ℤ
  pub mod_dll_file : String
  pub mod_dll_checksum : ℤ
  pub mod_name : String
  pub mod_version : String
  pub party : ℤ
  pub race : ℤ
  pub team : ℤ
  pub version_flags : ℕ
  pub password : String

encode_join_response : Site → Request → ℤ → String → BattleServer → List Json → List Json
encode_join_response site r error_code ip b peer =
    (num error_code ∷ str ip ∷ str (BattleServer.resolve_ipv4 site.network r b) ∷ [])
    ++ (BattleServer.encode_ports b ++ array (array peer ∷ []) ∷ [])

-- joinReturnError
unfoldable pub join_error : Site → Request → List Json
unfolding encode_join_response
join_error site r =
    encode_join_response site r (pos 2) "" (BattleServer.new_battle_server site.battle_servers "")
      []

-- the condition under the read lock
unfoldable pub rejects : JoinRequest → Advertisement → Bool
rejects q adv =
    not adv.joinable
    || (not (eq_ℤ adv.app_binary_checksum q.app_binary_checksum)
        || (not (eq_ℤ adv.data_checksum q.data_checksum)
            || (not (eq_String adv.mod_dll_file q.mod_dll_file)
                || (not (eq_ℤ adv.mod_dll_checksum q.mod_dll_checksum)
                    || (not (eq_String adv.mod_name q.mod_name)
                        || (not (eq_String adv.mod_version q.mod_version)
                            || (not (adv.version_flags == q.version_flags)
                                || not (eq_String adv.password q.password))))))))

abbrev pub wrong_party : JoinRequest → Advertisement → Bool
wrong_party q adv = not (eq_ℤ q.party (negsuc 0)) && not (eq_ℤ q.party adv.party)

join_reply : Site → Request → Advertisement → Option Peer → List Json
unfolding join_error encode_join_response
join_reply site r adv none = join_error site r
join_reply site r adv (some peer) =
    let server : BattleServer = elim (BattleServer.get site.battle_servers adv.relay_region) [
      | none ↦ BattleServer.new_lan_battle_server site.battle_servers ""
      | some b ↦ b
    ] in
    encode_join_response site r (pos 0) adv.ip server (Peer.encode peer)

-- The two closures: the `return` of the first leaves only the closure.
join_locked : Site → Request → JoinRequest → User → Advertisement → M Writes
unfolding join_reply rejects join_error
join_locked site r q u adv = do
  peer ← unsafe_new_peer adv.id adv.ip u.id u.stat_id q.party q.race q.team
  let reply = join_reply site r adv peer
  pure (if rejects q adv then join_error site r ∷ reply ∷ [] else reply ∷ [])

join_found : Site → Request → JoinRequest → User → Option ℕ → M Writes
unfolding deref join_locked join_error
join_found site r q u none = pure (join_error site r ∷ [])
join_found site r q u (some p) = do
  adv ← deref p
  if wrong_party q adv then pure (join_error site r ∷ []) else join_locked site r q u adv

join_user : Site → Request → JoinRequest → Option User → M Writes
unfolding leave_previous join_found get_advertisement join_error
join_user site r q none = pure (join_error site r ∷ [])
join_user site r q (some u) = do
  leave_previous site.title u.id
  found ← get_advertisement q.id
  join_found site r q u found

-- Join, by the user of the session
unfoldable pub join : Site → Request → Option JoinRequest → ℤ → M Writes
unfolding join_user join_error
join site r none user = pure (join_error site r ∷ [])
join site r (some q) user = join_user site r q (site.users user)

encode_host_response :
    Site → Request → ℤ → ℤ → BattleServer → String → List Json → String → String → List Json
encode_host_response site r error_code id b relay_region peers metadata description =
    (num error_code ∷ num id ∷ str "authtoken" ∷ [])
    ++ (BattleServer.encode_advertisement site.network r b
        ++ (str relay_region ∷ array peers ∷ nat 0 ∷ (elim site.title [
          | aoe1 ↦ str metadata ∷ []
          | aoe3 ↦ str "0" ∷ []
          | _ ↦ nat 0 ∷ null ∷ null ∷ str metadata ∷ str description ∷ []
        ])))

-- returnError
unfoldable pub host_error : Site → Request → List Json
unfolding encode_host_response
host_error site r =
    encode_host_response site r (pos 2) (pos 0)
      (BattleServer.new_battle_server site.battle_servers "") "" [] "0" ""

-- the battle server of the region, with the flag that LAN caches in it
host_server : Site → String → Option BattleServer
host_server site region =
    let (here, b) =
      BattleServer.is_lan site.network
        (BattleServer.new_battle_server site.battle_servers region) in
    if here then some b else BattleServer.get site.battle_servers region

abbrev pub forces_joinable : Title → Bool
forces_joinable aoe1 = true
forces_joinable aoe3 = true
forces_joinable aom = true
forces_joinable _ = false

abbrev pub with_joinable : Title → HostRequest → HostRequest
with_joinable title q =
    if forces_joinable title then record q { common = record q.common { joinable = true } } else q

-- the responses of the checks of the party, after which the handler goes on
party_found : Site → Request → Option ℕ → M Writes
unfolding deref host_error
party_found site r none = pure (host_error site r ∷ [])
party_found site r (some p) = do
  adv ← deref p
  pure (if not (eq_ℤ adv.party (negsuc 0)) then host_error site r ∷ [] else [])

host_party : Site → Request → ℤ → M Writes
unfolding party_found get_advertisement
host_party site r party s =
    if eq_ℤ party (negsuc 0)
    then some ([], s)
    else (do found ← get_advertisement party; party_found site r found) s

host_reply : Site → Request → BattleServer → Advertisement → Option Peer → List Json
unfolding host_error encode_host_response
host_reply site r b adv none = host_error site r
host_reply site r b adv (some peer) =
    encode_host_response site r (pos 0) adv.id b adv.relay_region
      (Advertisement.encode_peers site.zero_peer adv) adv.xbox_session_id adv.description

module _ (site : Site) (r : Request) (formats : Formats) (draws : Draws) (now : ℕ)
    (b : BattleServer) where
  host_stored : HostRequest → User → M (List Json)
  unfolding deref host_reply
  host_stored q u = do
    p ←
        store_advertisement formats draws now q (not (BattleServer.is_lan site.network b).0)
          site.title
    adv ← deref p
    peer ← unsafe_new_peer adv.id adv.ip u.id u.stat_id q.party q.race q.team
    stored ← deref p
    pure (host_reply site r b stored peer)

  host_user : HostRequest → Option User → M Writes
  unfolding leave_previous host_party host_stored host_error
  host_user q none = pure (host_error site r ∷ [])
  host_user q (some u) = do
    leave_previous site.title u.id
    warnings ← host_party site r q.party
    reply ← host_stored q u
    pure (warnings ++ reply ∷ [])

  abbrev pub disallowed : HostRequest → Bool
  disallowed q =
      (not (is_aoe4 site.title) && eq_String q.common.description "SESSION_MATCH_KEY")
      || not (eq_ℤ q.id (negsuc 0))

  host_bound : Option HostRequest → M Writes
  unfolding host_user host_error
  host_bound none s = some (host_error site r ∷ [], s)
  host_bound (some q) s =
      if disallowed q
      then some (host_error site r ∷ [], s)
      else host_user (with_joinable site.title q) (site.users q.host_id) s

-- Host; `region` is the form value relayRegion
unfoldable pub host : Site → Request → Formats → Draws → ℕ → String → Option HostRequest → M Writes
unfolding host_server host_bound host_error
host site r formats draws now region q s = elim (host_server site region) [
  | none ↦ some (host_error site r ∷ [], s)
  | some b ↦ host_bound site r formats draws now b q s
]
