-- ===== src/Advertisements/Hosting.antt =====
-- server/internal/models/advertisement.go, MainAdvertisements.Store: a new match under a random id.
-- The draws of the random generator are arguments: `ids` are those of the loop, in turn, and the
-- loop panics (`none`) if they run out. fmt.Sprintf is the parameter `Formats`.
pub mod Fresh
use Prim.Native.String.{String}
use fragua_age.Prelude.{ℕ, ◌+◌, Bool, true, false, Option, none, some, List, [], ◌∷◌, if◌then◌else◌}
use fragua_age.Prelude.Int.{ℤ, pos, ℤ_discrete}
use fragua_age.GoMap
use fragua_age.OrderedMap
use fragua_age.Json.{number_to_bool}
use fragua_age.Game.{Title, aoe1, aoe2, aoe3, aoe4, aom}
use fragua_age.Advertisement
use fragua_age.Advertisement.{Advertisement, UpdateRequest, Settings}
use fragua_age.Advertisements.{Advertisements, M, pure, ◌>>=◌, ◌>>◌, alloc, assign}

-- AdvertisementHostRequest: the fields that it has in common with AdvertisementUpdateRequest are in
-- `common`.
pub record HostRequest : Type 0 where
  pub common : UpdateRequest
  pub id : ℤ
  pub relay_region : String
  pub host_id : ℤ
  pub party : ℤ
  pub race : ℤ
  pub team : ℤ
  pub stat_group : ℤ
  pub service_type : ℕ

pub record Formats : Type 0 where
  -- "/10.0.11.%d"
  pub ip : ℕ → String
  -- the session of the template "GameSession", from its name and the end of its scid
  pub session : String → String → String

pub record Draws : Type 0 where
  -- rand.IntN(254)
  pub octet : ℕ
  pub uuid : String
  -- rand.Int32(), as often as the loop asks
  pub ids : List ℤ

scid_end : Title → String
scid_end aom = "00006fe8b971"
scid_end aoe4 = "00007d18f66e"
scid_end aoe1 = "000068a451d4"
scid_end aoe2 = "000068a451d4"
scid_end aoe3 = "000068a451d4"

abbrev blank_settings : Settings
blank_settings = record {
  app_binary_checksum = pos 0;
  data_checksum = pos 0;
  mod_dll_file = "";
  mod_dll_checksum = pos 0;
  mod_name = "";
  mod_version = "";
  version_flags = 0;
  description = "";
  automatch_poll_id = pos 0;
  map_name = "";
  observers_enabled = false;
  observers_delay = 0;
  observers_password = "";
  password = "";
  password_enabled = false;
  visible = false;
  joinable = false;
  match_type = 0;
  max_players = 0;
  options = "";
  slot_info = "";
}

-- The match that Store builds before it draws an id.
unfoldable pub draft : Formats → Draws → ℕ → HostRequest → Bool → Title → Advertisement
unfolding scid_end
draft formats draws now r generate_session title = Advertisement.update now r.common (record {
  id = pos 0;
  ip = formats.ip (draws.octet + 1);
  relay_region = r.relay_region;
  xbox_session_id = if generate_session then formats.session draws.uuid (scid_end title) else "0";
  host_id = r.host_id;
  party = r.party;
  race = r.race;
  team = r.team;
  stat_group = r.stat_group;
  lan = number_to_bool (pos r.service_type);
  settings = blank_settings;
  platform_session_id = 0;
  state = pos 0;
  start_time = 0;
  observer_ids = none;
  peers = OrderedMap.new_ordered_map;
  tags = record { integer = GoMap.empty; text = GoMap.empty };
})

-- advs.store.Store(adv.id, adv, never)
store_pointer : ℤ → ℕ → M (Bool × ℕ)
store_pointer id p s =
    let (r, store) = OrderedMap.store ℤ_discrete id p (some (λ _. false)) s.store in
    some (r, record s { store = store })

store_loop : ℕ → Advertisement → List ℤ → M ℕ
unfolding store_pointer assign
store_loop p adv [] s = none
store_loop p adv (id ∷ ids) s =
    let rest = store_loop p adv ids in
    (do
      assign p (record adv { id = id })
      (existed, stored) ← store_pointer id p
      if existed then rest else pure stored)
      s

-- Store, at the Unix time `now`
unfoldable pub store_advertisement : Formats → Draws → ℕ → HostRequest → Bool → Title → M ℕ
unfolding draft store_loop alloc
store_advertisement formats draws now r generate_session title = do
  p ← alloc (draft formats draws now r generate_session title)
  store_loop p (draft formats draws now r generate_session title) draws.ids
