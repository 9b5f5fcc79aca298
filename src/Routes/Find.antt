-- ===== src/Routes/Find.antt =====
-- server/internal/routes/game/advertisement: findAdvertisements.go, getAdvertisements.go,
-- getLanAdvertisements.go and findObservableAdvertisements.go, by the user of the session. The functions
-- of Go's `strings` that split the list of regions are the parameter `split`.
pub mod Answers
use Prim.Native.String.{String}
use fragua_age.Prelude.{
  ℕ, ◌≡◌, refl, Bool, true, false, not, ◌&&◌, ◌||◌, ◌==◌, Option, none, some, List, [], ◌∷◌, ◌++◌,
  is_some, if◌then◌else◌, fun_ext,
}
use fragua_age.Prelude.Int.{ℤ, pos, negsuc, eq_ℤ, ℤ_discrete, eq_String}
use fragua_age.Json.{Json, num, array}
use fragua_age.GoMap.{GoMap}
use fragua_age.Game.{Title, aoe3, has_platform_lobby}
use fragua_age.OrderedMap
use fragua_age.BattleServer
use fragua_age.Advertisement
use fragua_age.Advertisement.{Advertisement}
use fragua_age.Advertisements.{Advertisements, M, pure, ◌>>=◌}
use fragua_age.Advertisements.Search.{locked_find_advertisements_encoded}
use fragua_age.Routes.{Site, Writes}
use fragua_age.Routes.Changes.{TagRequest, parse_tags}

pub record SearchQuery : Type 0 where
  pub app_binary_checksum : ℤ
  pub data_checksum : ℤ
  -- a nil *uint8 is `none`
  pub match_type : Option ℕ
  pub mod_dll_file : String
  pub mod_dll_checksum : ℤ
  pub mod_name : String
  pub mod_version : String
  pub version_flags : ℕ

pub record WanQuery : Type 0 where
  pub count : ℤ
  pub start : ℤ

-- getAdvResp
get_adv_resp : ℤ → List Json → List Json
get_adv_resp error_code advs = num error_code ∷ array advs ∷ []

-- findAdvResp
unfoldable pub find_adv_resp : ℤ → List Json → List Json
unfolding get_adv_resp
find_adv_resp error_code advs = get_adv_resp error_code advs ++ array [] ∷ []

one_of : String → List String → Bool
one_of region [] = false
one_of region (x ∷ regions) = let rest = one_of region regions in eq_String x region || rest

same_type : Option ℕ → ℕ → Bool
same_type none t = true
same_type (some q) t = t == q

-- the regions of a search on the LAN; with none, the known battle servers are used
matches_battle_server : Site → List String → Advertisement → Bool
unfolding one_of
matches_battle_server site [] adv = is_some (BattleServer.get site.battle_servers adv.relay_region)
matches_battle_server site (x ∷ regions) adv = one_of adv.relay_region (x ∷ regions)

has_no_region : List String → Bool
has_no_region [] = true
has_no_region (_ ∷ _) = false

tags_match : Option (GoMap String ℤ × GoMap String String) → Advertisement → Bool
tags_match none adv = true
tags_match (some (integer, text)) adv = Advertisement.matches_tags integer text adv

tags_check : Site → List String → Option TagRequest → Advertisement → Bool
unfolding has_no_region tags_match parse_tags
tags_check site regions t adv =
    if has_no_region regions && has_platform_lobby site.title
    then tags_match (parse_tags t) adv
    else true

-- The condition of a search.
unfoldable pub found_by :
    Site
    → SearchQuery
    → Option TagRequest
    → Bool
    → List String
    → (Advertisement → Bool)
    → ℤ
    → Advertisement
    → Bool
unfolding matches_battle_server tags_check same_type
found_by site q t ongoing regions extra user adv =
    not (is_some (OrderedMap.load ℤ_discrete adv.peers user))
    && (tags_check site regions t adv
        && ((not (same_bool adv.joinable ongoing) || not (same_bool adv.visible ongoing))
            && (eq_ℤ adv.app_binary_checksum q.app_binary_checksum
                && (eq_ℤ adv.data_checksum q.data_checksum
                    && (same_type q.match_type adv.match_type
                        && (eq_String adv.mod_dll_file q.mod_dll_file
                            && (eq_ℤ adv.mod_dll_checksum q.mod_dll_checksum
                                && (eq_String adv.mod_name q.mod_name
                                    && (eq_String adv.mod_version q.mod_version
                                        && (adv.version_flags == q.version_flags
                                            && (matches_battle_server site regions adv
                                                && extra adv)))))))))))
  where
    same_bool : Bool → Bool → Bool
    same_bool true b = b
    same_bool false b = not b

-- findAdvertisements
unfoldable pub find :
    Site
    → Option SearchQuery
    → Option TagRequest
    → ℤ
    → ℤ
    → Bool
    → List String
    → (Advertisement → Bool)
    → ℤ
    → M Writes
unfolding found_by find_adv_resp
find site none t count offset ongoing regions extra user = pure (find_adv_resp (pos 2) [] ∷ [])
find site (some q) t count offset ongoing regions extra user = do
  advs ←
      locked_find_advertisements_encoded site.zero_peer site.battle_servers site.title count offset
        true (found_by site q t ongoing regions extra user)
  pure (find_adv_resp (pos 0) advs ∷ [])

-- FindAdvertisements
unfoldable pub find_advertisements :
    Site → Option WanQuery → Option SearchQuery → Option TagRequest → ℤ → M Writes
unfolding find find_adv_resp
find_advertisements site none q t user = pure (find_adv_resp (pos 2) [] ∷ [])
find_advertisements site (some w) q t user =
    find site q t w.count w.start false [] (λ adv. true) user

-- gameTitle == game.AoE3 with another observerGroupID than "0"
abbrev wrong_group : Title → String → Bool
wrong_group aoe3 group = not (eq_String group "0")
wrong_group _ group = false

-- FindObservableAdvertisements
unfoldable pub find_observable :
    Site → Option WanQuery → String → Option SearchQuery → Option TagRequest → ℤ → M Writes
unfolding find find_adv_resp
find_observable site none group q t user s = some (find_adv_resp (pos 2) [] ∷ [], s)
find_observable site (some w) group q t user s =
    if wrong_group site.title group
    then some (find_adv_resp (pos 2) [] ∷ [], s)
    else find site q t w.count w.start true [] (λ adv. adv.observers_enabled) user s

-- GetLanAdvertisements
unfoldable pub find_on_lan :
    Site
    → (String → List String)
    → Option String
    → Option SearchQuery
    → Option TagRequest
    → ℤ
    → M Writes
unfolding find find_adv_resp
find_on_lan site split none q t user s = some (find_adv_resp (pos 2) [] ∷ [], s)
find_on_lan site split (some regions) q t user s =
    if eq_String regions "[]"
    then some (find_adv_resp (pos 0) [] ∷ [], s)
    else find site q t (pos 0) (pos 0) false (split regions) (λ adv. true) user s

contains : List ℤ → ℤ → Bool
contains [] id = false
contains (x ∷ ids) id = let rest = contains ids id in eq_ℤ x id || rest

-- GetAdvertisements
unfoldable pub get_advertisements : Site → Option (List ℤ) → M Writes
unfolding get_adv_resp contains
get_advertisements site none = pure (get_adv_resp (pos 2) [] ∷ [])
get_advertisements site (some ids) = do
  advs ←
      locked_find_advertisements_encoded site.zero_peer site.battle_servers site.title (pos 0)
        (pos 0) false (λ adv. contains ids adv.id)
  pure (get_adv_resp (pos 0) advs ∷ [])
