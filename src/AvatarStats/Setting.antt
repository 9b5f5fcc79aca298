-- ===== src/AvatarStats/Setting.antt =====
-- routes/game/leaderboard/setAvatarStatValues.go: what becomes of the statistics that a user has.
use fragua_age.Prelude.{
  ◌≡◌, sym, ◌∙◌, ap, Option, none, some, List, [], ◌∷◌, arith, Option-cases, inl, inr,
}
use fragua_age.Prelude.Int.{ℤ, ℤ_discrete}
use fragua_age.Json.{Json}
use fragua_age.GoMap
use fragua_age.GoMap.{GoMap, get-set, get-empty}
use fragua_age.SafeMap
use fragua_age.SafeMap.{SafeMap}
use fragua_age.AvatarStats.{
  AvatarStat, AvatarStats, set_value, encode_stat, get_stat, add_stat, initial_stat, changed_found,
  changed, set_values,
}

add_stat-keeps :
    (s : AvatarStat) (stats : AvatarStats) (id : ℤ) (stat : AvatarStat)
    → stats.ro ≡ stats.wo
    → get_stat id stats ≡ some stat
    → ((add_stat s stats).ro ≡ (add_stat s stats).wo) × (get_stat id (add_stat s stats) ≡ some stat)
unfolding get_stat add_stat SafeMap.store SafeMap.load SafeMap.update_read_only
add_stat-keeps s stats id stat synced h =
    let h' : GoMap.get ℤ_discrete stats.wo id ≡ some stat =
      ap (λ m. GoMap.get ℤ_discrete m id) (sym synced) ∙ h in
    elim (Option-cases (GoMap.get ℤ_discrete stats.wo s.id)) [
      | inl n ↦ (
        ground (arith, n),
        elim (ℤ_discrete s.id id) [
          | yes p ↦ absurd (ground (arith, sym n ∙ ap (GoMap.get ℤ_discrete stats.wo) p ∙ h'))
          | no q ↦ ground (arith, n, q, h', get-set ℤ_discrete stats.wo s.id id s)
        ],
      )
      | inr (w, e) ↦ (ground (arith, e, synced), ground (arith, e, h))
    ]

changed_found-keeps :
    (nil : Json) (now : ℤ) (v : ℤ × ℤ) (stats : AvatarStats) (found : Option AvatarStat) (id : ℤ)
    (stat : AvatarStat)
    → stats.ro ≡ stats.wo
    → get_stat id stats ≡ some stat
    → ((changed_found nil now v stats found).1.ro ≡ (changed_found nil now v stats found).1.wo)
      × (get_stat id (changed_found nil now v stats found).1 ≡ some stat)
unfolding changed_found
changed_found-keeps nil now v stats none id stat synced h =
    add_stat-keeps (initial_stat nil now v) stats id stat synced h
changed_found-keeps nil now (j, value) stats (some s) id stat synced h = (synced, h)

set_values-keep :
    (nil : Json) (now profile_id : ℤ) (l : List (ℤ × ℤ)) (stats : AvatarStats) (id : ℤ)
    (stat : AvatarStat)
    → stats.ro ≡ stats.wo
    → get_stat id stats ≡ some stat
    → get_stat id (set_values nil now profile_id l stats).1 ≡ some stat
unfolding set_values changed
set_values-keep nil now profile_id [] stats id stat synced h = h
set_values-keep nil now profile_id (v ∷ l) stats id stat synced h =
    let (synced', h') = changed_found-keeps nil now v stats (get_stat v.0 stats) id stat synced h in
    set_values-keep nil now profile_id l _ id stat synced' h'

-- For a statistic that a user has, and statistics whose copy for readers is up to date: if the range over the
-- values starts with this statistic, then SetAvatarStatValues encodes its new value first, and the old one
-- stays in the statistics, whatever the other values are.
pub set_values-forgets :
    (nil : Json) (now profile_id id value : ℤ) (l : List (ℤ × ℤ)) (stats : AvatarStats)
    (stat : AvatarStat)
    → stats.ro ≡ stats.wo
    → get_stat id stats ≡ some stat
    → ((rest : List Json) × ((set_values nil now profile_id ((id, value) ∷ l) stats).0
          ≡ encode_stat profile_id (set_value now value stat) ∷ rest))
      × (get_stat id (set_values nil now profile_id ((id, value) ∷ l) stats).1 ≡ some stat)
unfolding set_values changed changed_found
set_values-forgets nil now profile_id id value l stats stat synced h = (
  ((set_values nil now profile_id l stats).0, ground (arith, h)),
  set_values-keep nil now profile_id ((id, value) ∷ l) stats id stat synced h,
)
