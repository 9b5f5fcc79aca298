-- ===== src/Tests/Statistics.antt =====
-- The theorem on statistics at a concrete input.
use fragua_age.Prelude.{◌≡◌, refl, some, List, [], ◌∷◌}
use fragua_age.Prelude.Int.{ℤ, pos, ℤ_discrete}
use fragua_age.Json.{Json, null}
use fragua_age.GoMap
use fragua_age.GoMap.{GoMap}
use fragua_age.SafeMap
use fragua_age.AvatarStats.{AvatarStat, AvatarStats, set_value, encode_stat, get_stat, set_values}
use fragua_age.AvatarStats.Setting.{set_values-forgets}

abbrev games : AvatarStat
games = record { id = pos 7; value = pos 3; metadata = null; last_updated = pos 100 }

abbrev one_entry : GoMap ℤ AvatarStat
one_entry = record { entries = (pos 7, games) ∷ [] }

abbrev one_stat : AvatarStats
one_stat = record { wo = one_entry; ro = one_entry }

abbrev others : List (ℤ × ℤ)
others = (pos 8, pos 1) ∷ (pos 7, pos 5) ∷ []

get_stat-games : get_stat (pos 7) one_stat ≡ some games
unfolding get_stat SafeMap.load GoMap.get ℤ_discrete
get_stat-games = refl

set_values-forgets_example :
    ((rest : List Json) × ((set_values null (pos 200) (pos 1) ((pos 7, pos 4) ∷ others) one_stat).0
        ≡ encode_stat (pos 1) (set_value (pos 200) (pos 4) games) ∷ rest))
    × (get_stat (pos 7) (set_values null (pos 200) (pos 1) ((pos 7, pos 4) ∷ others) one_stat).1
        ≡ some games)
set_values-forgets_example =
    set_values-forgets null (pos 200) (pos 1) (pos 7) (pos 4) others one_stat games refl
      get_stat-games
