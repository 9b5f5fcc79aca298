-- ===== src/Advertisement.antt =====
-- server/internal/models/advertisement.go, MainAdvertisement: one match that players can find and
-- join. A setter returns the changed match; the clock is an argument.
pub mod State
use Prim.Native.String.{String}
use fragua_age.Prelude.{
  ℕ, Bool, true, false, not, ◌&&◌, Option, none, some, List, [], ◌∷◌, ◌++◌, map, ite, if◌then◌else◌,
}
use fragua_age.Prelude.Int.{ℤ, pos, eq_ℤ, ℤ_discrete, eq_String, String_discrete}
use fragua_age.GoMap
use fragua_age.GoMap.{GoMap}
use fragua_age.SafeMap
use fragua_age.SafeMap.{SafeSet}
use fragua_age.OrderedMap
use fragua_age.OrderedMap.{OrderedMap}
use fragua_age.Json.{Json, null, num, str, nat, array, number_to_bool, bool_number}
use fragua_age.Game.{Title, is_aoe4, has_platform_lobby}
use fragua_age.BattleServer
use fragua_age.BattleServer.{BattleServers}
use fragua_age.Peer
use fragua_age.Peer.{Peer}

-- AdvertisementUpdateRequest
pub record UpdateRequest : Type 0 where
  pub app_binary_checksum : ℤ
  pub data_checksum : ℤ
  pub mod_dll_file : String
  pub mod_dll_checksum : ℤ
  pub mod_name : String
  pub mod_version : String
  pub version_flags : ℕ
  pub description : String
  pub automatch_poll_id : ℤ
  pub map_name : String
  pub observable : Bool
  pub observer_delay : ℕ
  pub observer_password : String
  pub password : String
  pub passworded : Bool
  pub visible : Bool
  pub joinable : Bool
  pub match_type : ℕ
  pub max_players : ℕ
  pub options : String
  pub slot_info : String
  pub psn_session_id : ℕ
  pub state : ℤ

-- The part of MainAdvertisement that UnsafeUpdate copies from a request.
pub record Settings : Type 0 where
  pub app_binary_checksum : ℤ
  pub data_checksum : ℤ
  pub mod_dll_file : String
  pub mod_dll_checksum : ℤ
  pub mod_name : String
  pub mod_version : String
  pub version_flags : ℕ
  pub description : String
  pub automatch_poll_id : ℤ
  pub map_name : String
  pub observers_enabled : Bool
  pub observers_delay : ℕ
  pub observers_password : String
  pub password : String
  pub password_enabled : Bool
  pub visible : Bool
  pub joinable : Bool
  pub match_type : ℕ
  pub max_players : ℕ
  pub options : String
  pub slot_info : String

pub record Tags : Type 0 where
  pub integer : GoMap String ℤ
  pub text : GoMap String String

pub record Advertisement : Type 0 where
  pub id : ℤ
  pub ip : String
  pub relay_region : String
  pub xbox_session_id : String
  pub host_id : ℤ
  pub party : ℤ
  pub race : ℤ
  pub team : ℤ
  pub stat_group : ℤ
  pub lan : Bool
  pub settings : Settings
  pub open settings use *
  pub platform_session_id : ℕ
  pub state : ℤ
  pub start_time : ℕ
  -- a nil *SafeSet is `none`
  pub observer_ids : Option (SafeSet ℤ)
  pub peers : OrderedMap ℤ Peer
  pub tags : Tags

-- UnsafeUpdateState at the Unix time `now`
unfoldable pub update_state : ℕ → ℤ → Advertisement → Advertisement
update_state now state adv =
    if eq_ℤ state (pos 1) && not (eq_ℤ adv.state (pos 1))
    then record adv {
      state = state;
      start_time = now;
      settings = record adv.settings { visible = false; joinable = false };
      observer_ids = some SafeMap.new_safe_set;
    }
    else record adv { state = state }

-- UnsafeUpdate
unfoldable pub update : ℕ → UpdateRequest → Advertisement → Advertisement
unfolding update_state
update now r adv = update_state now r.state (record adv {
  settings = record {
    app_binary_checksum = r.app_binary_checksum;
    data_checksum = r.data_checksum;
    mod_dll_file = r.mod_dll_file;
    mod_dll_checksum = r.mod_dll_checksum;
    mod_name = r.mod_name;
    mod_version = r.mod_version;
    version_flags = r.version_flags;
    description = r.description;
    automatch_poll_id = r.automatch_poll_id;
    map_name = r.map_name;
    observers_enabled = r.observable;
    observers_delay = r.observer_delay;
    observers_password = r.observer_password;
    password = r.password;
    password_enabled = r.passworded;
    visible = r.visible;
    joinable = r.joinable;
    match_type = r.match_type;
    max_players = r.max_players;
    options = r.options;
    slot_info = r.slot_info;
  };
})

unfoldable pub set_host_id : ℤ → Advertisement → Advertisement
set_host_id host_id adv = record adv { host_id = host_id }

unfoldable pub update_platform_session_id : ℕ → Advertisement → Advertisement
update_platform_session_id session_id adv = record adv { platform_session_id = session_id }

unfoldable pub update_tags : GoMap String ℤ → GoMap String String → Advertisement → Advertisement
update_tags integer text adv = record adv { tags = record { integer = integer; text = text } }

-- StartObserving: `none` is the panic of a call on a nil set
unfoldable pub start_observing : ℤ → Advertisement → Option Advertisement
start_observing user_id adv = elim adv.observer_ids [
  | none ↦ none
  | some ids ↦
      some (record adv { observer_ids = some (SafeMap.set_store ℤ_discrete user_id ids).1 })
]

unfoldable pub stop_observing : ℤ → Advertisement → Option Advertisement
stop_observing user_id adv = elim adv.observer_ids [
  | none ↦ none
  | some ids ↦
      some (record adv { observer_ids = some (SafeMap.set_delete ℤ_discrete user_id ids).1 })
]

-- containsFilter, over the entries of the filter
module _ {V : Type 0} (dec : Discrete V) where
  contains_entries : List (String × V) → GoMap String V → Bool
  contains_entries [] tags = true
  contains_entries ((fk, fv) ∷ filter) tags =
      let rest = contains_entries filter tags in
      elim (GoMap.get String_discrete tags fk) [
        | none ↦ false
        | some tv ↦ ite (dec fv tv) rest false
      ]

  unfoldable pub contains_filter : GoMap String V → GoMap String V → Bool
  unfolding contains_entries
  contains_filter filter tags = contains_entries filter.entries tags

-- UnsafeMatchesTags
unfoldable pub matches_tags : GoMap String ℤ → GoMap String String → Advertisement → Bool
unfolding contains_filter
matches_tags integer text adv =
    contains_filter ℤ_discrete integer adv.tags.integer
    && contains_filter String_discrete text adv.tags.text

-- EncodePeers; `zero_peer` is what a missing key would read
unfoldable pub encode_peers : Peer → Advertisement → List Json
encode_peers zero_peer adv =
    map (λ p. array (Peer.encode p)) (OrderedMap.values ℤ_discrete zero_peer adv.peers).1

-- The name of the battle server, which ends the encoding. `none` is the panic of a call on the nil
-- server that Get returns for an unknown region.
unfoldable pub encode_server_name : BattleServers → Advertisement → Option (List Json)
encode_server_name battle_servers adv =
    if adv.lan then some (null ∷ []) else elim (BattleServer.get battle_servers adv.relay_region) [
      | none ↦ none
      | some b ↦ some (BattleServer.append_name b [])
    ]

-- what UnsafeEncode puts before the name of the battle server
unfoldable pub encode_settings : Peer → Title → Advertisement → List Json
unfolding encode_peers
encode_settings zero_peer title adv =
    (num adv.id ∷ nat adv.platform_session_id ∷ [])
    ++ ((if has_platform_lobby title
          then (if is_aoe4 title then nat 0 else str "0") ∷ str "" ∷ str "" ∷ []
          else [])
        ++ ((str adv.xbox_session_id ∷ num adv.host_id ∷ num adv.state ∷ str adv.description ∷ [])
            ++ ((if has_platform_lobby title then str adv.description ∷ [] else [])
                ++ (bool_number adv.visible
                    ∷ str adv.map_name
                    ∷ str adv.options
                    ∷ bool_number adv.password_enabled
                    ∷ nat adv.max_players
                    ∷ str adv.slot_info
                    ∷ nat adv.match_type
                    ∷ array (encode_peers zero_peer adv)
                    ∷ nat (SafeMap.set_len adv.observer_ids)
                    ∷ nat 0
                    ∷ bool_number adv.observers_enabled
                    ∷ nat adv.observers_delay
                    ∷ bool_number (not (eq_String adv.observers_password ""))
                    ∷ bool_number adv.lan
                    ∷ (if number_to_bool (pos adv.start_time) then nat adv.start_time else null)
                    ∷ str adv.relay_region
                    ∷ []))))

-- UnsafeEncode
unfoldable pub encode : Peer → Title → BattleServers → Advertisement → Option (List Json)
unfolding encode_server_name encode_settings
encode zero_peer title battle_servers adv = elim (encode_server_name battle_servers adv) [
  | none ↦ none
  | some name ↦ some (encode_settings zero_peer title adv ++ name)
]
