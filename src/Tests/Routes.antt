-- ===== src/Tests/Routes.antt =====
-- The theorems on the routes, applied to the match of the lobby.
use fragua_age.Prelude.{
  ◌⊎◌, inr, ◌≡◌, refl, true, not, ◌&&◌, Option, none, some, List, [], ◌∷◌, is_some, if◌then◌else◌,
}
use fragua_age.Prelude.Int.{ℤ, pos, negsuc, eq_ℤ, ℤ_discrete}
use fragua_age.Game.{is_aoe4, aoe2}
use fragua_age.OrderedMap
use fragua_age.OrderedMap.{OrderedMap}
use fragua_age.Advertisements.{Advertisements, initial}
use fragua_age.Advertisements.Valid.{IsValid, roster, initial-IsValid}
use fragua_age.Advertisements.Presence.{is_in, OneMatch}
use fragua_age.Routes.{Writes}
use fragua_age.Routes.Membership.{JoinRequest, join, host, leave}
use fragua_age.Routes.Membership.Opening.{host-OneMatch}
use fragua_age.Routes.Membership.{rejects}
use fragua_age.Json.{Json, null}
use fragua_age.Advertisements.Presence.{same}
use fragua_age.Routes.{fails, succeeds}
use fragua_age.Routes.Membership.{join_error}
use fragua_age.Routes.Membership.Joining.{join-OneMatch, join-admits}
use fragua_age.Routes.Membership.Departing.{leave-is_in}
use fragua_age.Routes.Changes.{Live, TagRequest, Messages, update_tags, update_state, all_present}
use fragua_age.Routes.Changes.Answering.{has_server, match_at, update_state-returns}
use fragua_age.Routes.Changes.Rosters.{Change, change, change-Kept, by_tags}
use fragua_age.Routes.Reachable.{started, stepped, hosts, Reachable-OneMatch}
use fragua_age.Routes.Find.{get_advertisements}
use fragua_age.Routes.Find.Answers.{get_advertisements-any}
use fragua_age.Routes.Find.{SearchQuery}
use fragua_age.Routes.Observing.{start_observing, stop_observing}
use fragua_age.Routes.Observing.Returning.{observing-returns}
use fragua_age.Tests.{
  user, host_request, formats, draws, some_peer, site, from_here, initial-OneMatch,
  initial-SomeFree, after, opening, lobby, lobby-facts, program, opened,
}

host-OneMatch_example :
    (writes : Writes) × (t : Advertisements) × (host site from_here formats draws 1000 "lan"
        (some host_request)
        initial
      ≡ some (writes, t))
    × IsValid t
    × (is_aoe4 aoe2 ≡ true ⊎ OneMatch t)
host-OneMatch_example =
    host-OneMatch site from_here formats draws 1000 "lan" (some host_request) initial
      initial-IsValid initial-SomeFree (inr initial-OneMatch)

abbrev join_request : JoinRequest
join_request = record {
  id = pos 5;
  app_binary_checksum = pos 7;
  data_checksum = pos 8;
  mod_dll_file = "";
  mod_dll_checksum = pos 0;
  mod_name = "";
  mod_version = "";
  party = negsuc 0;
  race = pos 2;
  team = pos 2;
  version_flags = 0;
  password = "wrong";
}

-- User 11 joins match 5 with the wrong password.
abbrev joined : Advertisements
joined = after (join site from_here (some join_request) (pos 11) lobby)

joined-roster : roster joined (pos 5) ≡ some (pos 10 ∷ pos 11 ∷ [])
unfolding program
joined-roster = refl

abbrev writes_of : Option (Writes × Advertisements) → Writes
writes_of none = []
writes_of (some (w, _)) = w

opening-runs : opening ≡ some (writes_of opening, lobby)
unfolding program
opening-runs = refl

abbrev live : Live
live = record { has_session = λ u. true; challenge_progress = null; itoa = λ n. "" }

Reachable-OneMatch_example : IsValid lobby × (is_aoe4 aoe2 ≡ true ⊎ OneMatch lobby)
Reachable-OneMatch_example = Reachable-OneMatch site live lobby (
    stepped initial lobby started (
      hosts from_here formats draws 1000 "lan" (some host_request) (writes_of opening) lobby
        initial-SomeFree opening-runs))

join-OneMatch_example :
    (writes : Writes) × (t : Advertisements) × (join site from_here
        (some join_request)
        (pos 11)
        lobby
      ≡ some (writes, t))
    × IsValid t
    × (is_aoe4 aoe2 ≡ true ⊎ OneMatch t)
join-OneMatch_example =
    join-OneMatch site from_here (some join_request) (pos 11) lobby lobby-facts.0
      (inr lobby-facts.1)

leave-is_in_example :
    (t : Advertisements) × (leave (some (pos 5)) (pos 10) lobby
      ≡ some ((if is_in lobby (pos 5) (pos 10) then succeeds else fails), t))
    × IsValid t
    × ((j u : ℤ) → is_in t j u ≡ (is_in lobby j u && not (same (pos 5) j && same (pos 10) u)))
leave-is_in_example = leave-is_in (pos 10) (pos 5) lobby lobby-facts.0

get_advertisements-any_example :
    get_advertisements site (some (pos 5 ∷ [])) lobby ≡ get_advertisements site (some []) lobby
get_advertisements-any_example = get_advertisements-any site (pos 5 ∷ []) [] lobby lobby-facts.0

update_state-returns_example :
    is_some (update_state site live 2000 (some (pos 5, pos 2)) lobby)
    ≡ elim (match_at lobby (pos 5)) [
      | none ↦ true
      | some adv ↦
          eq_ℤ (pos 2) (pos 1)
          && (has_server site adv
              && all_present site live (OrderedMap.iter ℤ_discrete some_peer adv.peers).1)
    ]
update_state-returns_example =
    update_state-returns site live 2000 (pos 5) (pos 2) lobby lobby-facts.0

abbrev search_query : SearchQuery
search_query = record {
  app_binary_checksum = pos 7;
  data_checksum = pos 8;
  match_type = none;
  mod_dll_file = "";
  mod_dll_checksum = pos 0;
  mod_name = "";
  mod_version = "";
  version_flags = 0;
}

observing-returns_example :
    (is_some (start_observing site live from_here (some search_query) (some (pos 5)) (pos 11) lobby)
      ≡ elim (match_at lobby (pos 5)) [ none ↦ true | some adv ↦ is_some adv.observer_ids ])
    × (is_some (stop_observing (some (pos 5)) (pos 11) lobby)
        ≡ elim (match_at lobby (pos 5)) [ none ↦ true | some adv ↦ is_some adv.observer_ids ])
observing-returns_example =
    observing-returns site live from_here search_query (pos 5) (pos 11) lobby lobby-facts.0

join-admits_example :
    (reply : List Json) × (t : Advertisements) × (join site from_here
        (some join_request)
        (pos 11)
        lobby
      ≡ some (
        (if rejects join_request opened
            then join_error site from_here ∷ reply ∷ []
            else reply ∷ []),
        t,
      ))
    × (is_in t (pos 5) (pos 11) ≡ true)
unfolding program
join-admits_example =
    join-admits site from_here join_request (pos 11) lobby lobby (user 11) 1 opened lobby-facts.0
      refl refl refl refl refl

abbrev tags : Option TagRequest
tags = some (record {
  numeric_names = "n" ∷ [];
  numeric_values = pos 3 ∷ [];
  string_names = [];
  string_values = [];
})

abbrev tagging : Change
tagging = by_tags tags (some (pos 5)) (pos 10)

abbrev after_change : Option ((Writes × Messages) × Advertisements) → Advertisements
after_change none = initial
after_change (some (_, s)) = s

change-Kept_example :
    IsValid (after_change (change site live tagging lobby))
    × ((j : ℤ) → roster (after_change (change site live tagging lobby)) j ≡ roster lobby j)
unfolding program change update_tags
change-Kept_example =
    change-Kept site live tagging lobby (after_change (change site live tagging lobby))
      (succeeds, []) lobby-facts.0 refl
