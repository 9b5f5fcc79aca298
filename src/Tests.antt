-- ===== src/Tests.antt =====
-- One match that its host has opened, for the children that apply the theorems to it.
mod Party
mod Domains
mod Hosts
mod Items
mod Persistent
mod Statistics
mod Sessions
mod KeyMutex
mod Chat
mod Maps
mod Matches
mod Routes
use fragua_age.Prelude.{
  ℕ, ◌≡◌, ◌≢◌, refl, ◌⊎◌, inr, sym, ap, subst, inl, Bool, true, false, not, ◌&&◌, ◌||◌, ◌^◌, ◌%◌,
  Option, none, some, List, [], ◌∷◌, is_some, take, drop, ltb, arith, if◌then◌else◌, ℕ_discrete,
}
use fragua_age.Prelude.Int.{ℤ, pos, negsuc, eq_ℤ, ℤ_discrete}
use fragua_age.GoMap
use fragua_age.GoMap.{GoMap}
use fragua_age.SafeMap
use fragua_age.SafeMap.{SafeMap}
use fragua_age.SafeMap.Refinement.{IsSynced, run-new_safe_map, unmarshal_json_failed}
use fragua_age.OrderedMap
use fragua_age.OrderedMap.{OrderedMap}
use fragua_age.Game.{is_aoe4, aoe2, has_platform_lobby}
use fragua_age.BattleServer
use fragua_age.BattleServer.{Network, Request, BattleServers}
use fragua_age.Peer
use fragua_age.Peer.{Peer}
use fragua_age.Advertisement
use fragua_age.Advertisement.{Advertisement, UpdateRequest}
use fragua_age.Advertisements.{Advertisements, initial}
use fragua_age.Advertisements.Valid.{IsValid, roster, initial-IsValid}
use fragua_age.Advertisements.Search.{page}
use fragua_age.Advertisements.Search.Pages.{page_window, page_panics}
use fragua_age.Advertisements.Presence.{is_in, OneMatch}
use fragua_age.Advertisements.Hosting.{HostRequest, Formats, Draws, draft, store_advertisement}
use fragua_age.Advertisements.Hosting.Fresh.{SomeFree, Hosted, store_advertisement-Hosted}
use fragua_age.User.{User, Runtime}
use fragua_age.Routes.{Post}
use fragua_age.Routes.{Site, Writes}
use fragua_age.Routes.Membership.{JoinRequest, join, host, leave}
use fragua_age.Routes.Membership.Opening.{host-OneMatch}
use fragua_age.Prelude.Int.{String_discrete}
use fragua_age.Advertisements.Search.{get_user_advertisement, any_user, unsafe_first_advertisement}
use fragua_age.Advertisements.{
  unsafe_new_peer, alloc, assign, deref, get_advertisement, unsafe_delete, unsafe_remove_peer,
}
use fragua_age.Json.{number_to_bool}
use fragua_age.Routes.Membership.{host_error, rejects}
use fragua_age.Routes.{leave_previous}
use fragua_age.Json.{Json, null}
use fragua_age.OrderedMap.Index.{index_of}
use fragua_age.OrderedMap.Refinement.{
  spec_store, Implements, lookup, new-Implements, store-Implements,
}
use fragua_age.OrderedMap.Iteration.{contents, readers-Implements}
use fragua_age.OrderedMap.History
use fragua_age.OrderedMap.History.{run-new_ordered_map}
use fragua_age.SafeMap.Refinement
use fragua_age.Advertisements.Peers.{enlist, unsafe_new_peer-roster}
use fragua_age.Advertisements.Leaving.{after_leaving, unsafe_remove_peer-roster}
use fragua_age.Advertisements.Presence.{same}
use fragua_age.Advertisements.Search.{locked_find_advertisements_encoded}
use fragua_age.Advertisements.Search.Pages.{encode_each, selected, returning, search-selected}
use fragua_age.Advertisements.Search.Users.{UserIn, get_user_advertisement-UserIn}
use fragua_age.Advertisement.State.{updates, any_started, observing-updates, start_time-updates}
use fragua_age.Routes.{fails, succeeds}
use fragua_age.Routes.Membership.{join_error}
use fragua_age.Routes.Membership.Joining.{join-OneMatch, join-admits}
use fragua_age.Routes.Membership.Departing.{leave-is_in}
use fragua_age.Routes.Changes.{
  Live, TagRequest, Messages, update, update_tags, update_state, all_present,
}
use fragua_age.Routes.Changes.Answering.{has_server, match_at, update_state-returns}
use fragua_age.Routes.Changes.Rosters.{Change, change, change-Kept, by_tags}
use fragua_age.Routes.Reachable.{started, stepped, hosts, Reachable-OneMatch}
use fragua_age.Routes.Find.{get_advertisements}
use fragua_age.Routes.Find.Answers.{get_advertisements-any}
use fragua_age.KeyMutex.{
  State, Steps, RwMutex, done, more, outside, inside, waits, writes, reads, finds, misses, creates,
  locks_for_writing, put, is_held,
}
use fragua_age.KeyMutex.Exclusion.{Known, Steps-exclusion, Steps-unlock}
use fragua_age.Routes.Find.{SearchQuery}
use fragua_age.Routes.Observing.{start_observing, stop_observing}
use fragua_age.Routes.Observing.Returning.{observing-returns}

abbrev update_request : UpdateRequest
update_request = record {
  app_binary_checksum = pos 7;
  data_checksum = pos 8;
  mod_dll_file = "";
  mod_dll_checksum = pos 0;
  mod_name = "";
  mod_version = "";
  version_flags = 0;
  description = "one";
  automatch_poll_id = negsuc 0;
  map_name = "arabia";
  observable = true;
  observer_delay = 0;
  observer_password = "";
  password = "secret";
  passworded = true;
  visible = true;
  joinable = true;
  match_type = 1;
  max_players = 4;
  options = "";
  slot_info = "";
  psn_session_id = 0;
  state = pos 0;
}

abbrev host_request : HostRequest
host_request = record {
  common = update_request;
  id = negsuc 0;
  relay_region = "lan";
  host_id = pos 10;
  party = negsuc 0;
  race = pos 1;
  team = pos 1;
  stat_group = pos 0;
  service_type = 1;
}

abbrev formats : Formats
formats = record { ip = λ n. "/10.0.11.1"; session = λ a b. a }

abbrev draws : Draws
draws = record { octet = 0; uuid = "u"; ids = pos 5 ∷ pos 6 ∷ [] }

abbrev no_servers : BattleServers
no_servers = record {
  store = OrderedMap.new_read_only [] GoMap.empty;
  have_oob_port = true;
  battle_server_name = "true";
}

abbrev some_peer : Peer
some_peer = Peer.new_peer (pos 0) "" (pos 0) (pos 0) (pos 0) (pos 0) (pos 0)

abbrev runtime : Runtime
runtime = record {
  itoa = λ n. "";
  format_uint = λ n. "";
  bytes = λ s. [];
  hex_draw = λ n j. j % 16;
  int64_n = λ n a b. a % n;
  int32 = λ s j. pos j;
}

abbrev user : ℕ → User
user n = record {
  id = pos n;
  stat_id = pos 1;
  alias = "player";
  platform_user_id = n;
  profile_id = pos n;
  reliclink = pos 0;
  is_xbox = false;
  avatar_metadata = null;
  presence = pos 0;
  presence_properties = none;
}

abbrev find_user : ℤ → Option User
find_user (pos n) = if ltb n 20 then some (user n) else none
find_user (negsuc _) = none

abbrev site : Site
site = record {
  title = aoe2;
  battle_servers = no_servers;
  network = record { is_uuid4 = λ r. true; connectivity = false; public_ip = "" };
  users = find_user;
  zero_peer = some_peer;
}

-- Only user 11 has a session.
abbrev post : Post
post = record {
  runtime = runtime;
  client_version = λ n. if eq_ℤ n (pos 11) then some 190 else none;
}

abbrev from_here : Request
from_here = record {
  remote_is_ipv4 = true;
  remote_is_local = true;
  local_ip = "10.0.0.1";
  host_ip = none;
}

initial-OneMatch : OneMatch initial
unfolding initial is_in roster
initial-OneMatch u i j hi hj = absurd (ground (arith, hi))

initial-SomeFree : SomeFree initial draws.ids
unfolding initial roster OrderedMap.load GoMap.get GoMap.empty
initial-SomeFree = inl refl

-- The state behind a run.
abbrev after : {A : Type 0} → Option (A × Advertisements) → Advertisements
after none = initial
after (some (_, s)) = s

abbrev opening : Option (Writes × Advertisements)
opening = host site from_here formats draws 1000 "lan" (some host_request) initial

-- User 10 has opened match 5.
abbrev lobby : Advertisements
lobby = after opening

on_aoe2 : {P : Type 0} → is_aoe4 aoe2 ≡ true ⊎ P → P
on_aoe2 (inl e) = absurd (ground (arith, e))
on_aoe2 (inr p) = p

lobby-facts : IsValid lobby × OneMatch lobby
lobby-facts =
    let (w, t, run, valid, one) =
      host-OneMatch site from_here formats draws 1000 "lan" (some host_request) initial
        initial-IsValid initial-SomeFree (inr initial-OneMatch) in
    let same : lobby ≡ t = ap after run in
    (subst IsValid (sym same) valid, subst OneMatch (sym same) (on_aoe2 one))

program : Unit {0}
unfolding roster host OrderedMap.load GoMap.get BattleServer.is_lan BattleServer.new_battle_server
    String_discrete ℤ_discrete get_user_advertisement OrderedMap.values initial store_advertisement
    OrderedMap.store GoMap.empty unsafe_new_peer GoMap.set OrderedMap.keys Advertisement.update
    Peer.new_peer Advertisement.encode_peers Advertisement.update_state draft any_user
    unsafe_first_advertisement alloc assign deref get_advertisement unsafe_delete unsafe_remove_peer
    BattleServer.encode_advertisement BattleServer.encode_ports BattleServer.get
    BattleServer.resolve_ipv4 GoMap.del GoMap.map_values number_to_bool OrderedMap.delete
    OrderedMap.delete_at OrderedMap.len OrderedMap.new_ordered_map OrderedMap.read_only_load
    OrderedMap.update_read_only Peer.encode Peer.update_mutable host_error leave_previous
    SafeMap.new_safe_map SafeMap.new_safe_set SafeMap.update_read_only ℕ_discrete is_in rejects join
    leave
program = tt

lobby-roster : roster lobby (pos 5) ≡ some (pos 10 ∷ [])
unfolding program
lobby-roster = refl

-- The match behind the pointer 1.
abbrev opened : Advertisement
opened = or_else (lobby.heap 1)
  where
    or_else : Option Advertisement → Advertisement
    or_else none = draft formats draws 1000 host_request false aoe2
    or_else (some adv) = adv
