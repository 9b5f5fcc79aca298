-- ===== src/Tests/Matches.antt =====
-- The theorems on the matches, applied to the match of the lobby.
use fragua_age.Prelude.{
  ℕ, ◌≡◌, true, false, not, ◌||◌, Option, none, some, List, [], ◌∷◌, is_some, arith,
}
use fragua_age.Prelude.Int.{ℤ, pos}
use fragua_age.Game.{aoe2}
use fragua_age.Advertisement
use fragua_age.Advertisement.{Advertisement, UpdateRequest}
use fragua_age.Advertisements.{Advertisements, initial}
use fragua_age.Advertisements.Valid.{initial-IsValid}
use fragua_age.Advertisements.Search.{page}
use fragua_age.Advertisements.Hosting.{draft, store_advertisement}
use fragua_age.Advertisements.Hosting.Fresh.{Hosted, store_advertisement-Hosted}
use fragua_age.Advertisements.Search.{get_user_advertisement}
use fragua_age.OrderedMap.Iteration.{contents}
use fragua_age.Advertisements.Search.{locked_find_advertisements_encoded}
use fragua_age.Advertisements.Search.Pages.{encode_each, selected, returning, search-selected}
use fragua_age.Advertisements.Search.Users.{UserIn, get_user_advertisement-UserIn}
use fragua_age.Advertisement.State.{updates, any_started, observing-updates}
use fragua_age.Tests.{
  host_request, formats, draws, no_servers, some_peer, initial-SomeFree, lobby, lobby-facts,
  program, opened,
}

store_advertisement-Hosted_example :
    (t : Advertisements) × (store_advertisement formats draws 1000 host_request false aoe2 initial
      ≡ some (initial.next, t))
    × Hosted initial (draft formats draws 1000 host_request false aoe2) t
store_advertisement-Hosted_example =
    store_advertisement-Hosted formats draws 1000 host_request false aoe2 initial initial-IsValid
      initial-SomeFree

get_user_advertisement-UserIn_example :
    (r : Option ℕ) × (get_user_advertisement (pos 10) lobby ≡ some (r, lobby))
    × UserIn lobby (pos 10) r
get_user_advertisement-UserIn_example =
    get_user_advertisement-UserIn lobby (pos 10) lobby-facts.0.0 lobby-facts.0.1

search-selected_example :
    locked_find_advertisements_encoded some_peer no_servers aoe2
      (pos 1)
      (pos 0)
      true
      (λ adv. adv.visible)
      lobby
    ≡ elim (encode_each some_peer aoe2 no_servers
        (selected lobby.heap (λ adv. not true || adv.visible) (contents lobby-facts.0.0))) [
          | none ↦ none
          | some js ↦ returning some_peer aoe2 no_servers lobby (page (pos 1) (pos 0) js)
        ]
search-selected_example =
    search-selected some_peer aoe2 no_servers (pos 1) (pos 0) true (λ adv. adv.visible) lobby
      lobby-facts.0.0 lobby-facts.0.1

abbrev state_updates : List (ℕ × ℤ)
state_updates = (5, pos 1) ∷ (9, pos 1) ∷ []

observing-updates_example :
    (is_some (Advertisement.start_observing (pos 11) (updates state_updates opened))
      ≡ any_started state_updates || is_some opened.observer_ids)
    × (is_some (Advertisement.stop_observing (pos 11) (updates state_updates opened))
        ≡ any_started state_updates || is_some opened.observer_ids)
unfolding program
observing-updates_example =
    observing-updates state_updates (pos 11) opened (λ e. absurd (ground (arith, e)))
