-- ===== src/AvatarStats.antt =====
-- server/internal/models/avatarStats.go: the statistics of a user. A time is in seconds, as it is
-- encoded, and `now` is the clock's; the locks on single statistics are not modelled.
pub mod Setting
use Prim.Native.String.{String}
use fragua_age.Prelude.{
  ℕ, ◌≡◌, refl, sym, ◌∙◌, ap, Bool, true, false, Option, none, some, List, [], ◌∷◌, map, arith,
  if◌then◌else◌, Option-cases, inl, inr,
}
use fragua_age.Prelude.Int.{ℤ, ℤ_discrete, pos, String_discrete}
use fragua_age.Json.{Json, num, array}
use fragua_age.GoMap
use fragua_age.GoMap.{GoMap, get-set, get-empty}
use fragua_age.SafeMap
use fragua_age.SafeMap.{SafeMap}

-- AvatarStat
pub record AvatarStat : Type 0 where
  pub id : ℤ
  pub value : ℤ
  pub metadata : Json
  pub last_updated : ℤ

-- NewAvatarStat; nil metadata are `null`
unfoldable new_avatar_stat : Json → ℤ → ℤ → ℤ → AvatarStat
new_avatar_stat nil now id value = record {
  id = id;
  value = value;
  metadata = nil;
  last_updated = now;
}

-- SetValue
unfoldable pub set_value : ℤ → ℤ → AvatarStat → AvatarStat
set_value now value stat = record stat { value = value; last_updated = now }

-- AvatarStat.Encode
unfoldable pub encode_stat : ℤ → AvatarStat → Json
encode_stat profile_id stat =
    array
      (num stat.id ∷ num profile_id ∷ num stat.value ∷ stat.metadata ∷ num stat.last_updated ∷ [])

-- AvatarStats
abbrev pub AvatarStats : Type 0
AvatarStats = SafeMap ℤ AvatarStat

-- GetStat
unfoldable pub get_stat : ℤ → AvatarStats → Option AvatarStat
get_stat id stats = SafeMap.load ℤ_discrete stats id

-- AddStat
unfoldable add_stat : AvatarStat → AvatarStats → AvatarStats
add_stat stat stats = (SafeMap.store ℤ_discrete stat.id stat (some (λ _. false)) stats).1

-- AvatarStats.Encode, in the order of the range
unfoldable encode : (GoMap ℤ AvatarStat → List (ℤ × AvatarStat)) → ℤ → AvatarStats → Json
unfolding encode_stat
encode range profile_id stats = array (map (encode_stat profile_id) (SafeMap.values range stats))

-- The loops that store one statistic after the other, in the order of the range.
store_all : List AvatarStat → AvatarStats → AvatarStats
store_all [] stats = stats
store_all (stat ∷ l) stats =
    store_all l (SafeMap.store ℤ_discrete stat.id stat (some (λ _. true)) stats).1

identified : ℤ × AvatarStat → AvatarStat
identified (id, stat) = record stat { id = id }

-- UnmarshalJSON: `decoded` is what encoding/json decodes, `none` if it fails
unfoldable unmarshal_json : Option (List (ℤ × AvatarStat)) → AvatarStats → Bool × AvatarStats
unfolding store_all identified
unmarshal_json none stats = (true, stats)
unmarshal_json (some decoded) stats =
    (false, store_all (map identified decoded) SafeMap.new_safe_map)

initial_stat : Json → ℤ → ℤ × ℤ → AvatarStat
unfolding new_avatar_stat
initial_stat nil now (id, value) = new_avatar_stat nil now id value

-- newAvatarStats
unfoldable new_avatar_stats : Json → ℤ → List (ℤ × ℤ) → AvatarStats
unfolding store_all initial_stat
new_avatar_stats nil now values = store_all (map (initial_stat nil now) values) SafeMap.new_safe_map

-- routes/game/leaderboard/setAvatarStatValues.go: the body of the loop over the values, with the
-- statistic that is encoded. GetStat returns a copy, which SetValue changes.
changed_found : Json → ℤ → ℤ × ℤ → AvatarStats → Option AvatarStat → AvatarStat × AvatarStats
unfolding initial_stat set_value add_stat
changed_found nil now v stats none =
    (initial_stat nil now v, add_stat (initial_stat nil now v) stats)
changed_found nil now (id, value) stats (some stat) = (set_value now value stat, stats)

changed : Json → ℤ → ℤ × ℤ → AvatarStats → AvatarStat × AvatarStats
unfolding changed_found get_stat
changed nil now (id, value) stats = changed_found nil now (id, value) stats (get_stat id stats)

-- The closure that SetAvatarStatValues passes to WithReadWrite: what it encodes, and the statistics
unfoldable pub set_values : Json → ℤ → ℤ → List (ℤ × ℤ) → AvatarStats → List Json × AvatarStats
unfolding changed encode_stat
set_values nil now profile_id [] stats = ([], stats)
set_values nil now profile_id (v ∷ l) stats =
    let (stat, stats') = changed nil now v stats in
    let (encoded, stats'') = set_values nil now profile_id l stats' in
    (encode_stat profile_id stat ∷ encoded, stats'')
