-- ===== src/Peer.antt =====
-- server/internal/models/peer.go: a user in a match. The `atomic.Value` with the race and the team
-- is two fields; the set of invited users holds their ids.
use Prim.Native.String.{String}
use fragua_age.Prelude.{Bool, List, [], ◌∷◌}
use fragua_age.Prelude.Int.{ℤ, negsuc, ℤ_discrete}
use fragua_age.SafeMap
use fragua_age.SafeMap.{SafeSet}
use fragua_age.Json.{Json, num, str}

pub record Peer : Type 0 where
  pub advertisement_id : ℤ
  pub party : ℤ
  pub advertisement_ip : String
  pub user_id : ℤ
  pub user_stat_id : ℤ
  pub race : ℤ
  pub team : ℤ
  pub invites : SafeSet ℤ

unfoldable pub update_mutable : ℤ → ℤ → Peer → Peer
update_mutable race team p = record p { race = race; team = team }

unfoldable pub new_peer : ℤ → String → ℤ → ℤ → ℤ → ℤ → ℤ → Peer
unfolding update_mutable
new_peer advertisement_id advertisement_ip user_id user_stat_id party race team =
    update_mutable race team (record {
      advertisement_id = advertisement_id;
      party = party;
      advertisement_ip = advertisement_ip;
      user_id = user_id;
      user_stat_id = user_stat_id;
      race = race;
      team = team;
      invites = SafeMap.new_safe_set;
    })

unfoldable pub encode : Peer → List Json
encode p =
    num p.advertisement_id
    ∷ num p.user_id
    ∷ num (negsuc 0)
    ∷ num p.user_stat_id
    ∷ num p.race
    ∷ num p.team
    ∷ str p.advertisement_ip
    ∷ []

unfoldable pub invite : ℤ → Peer → Bool × Peer
invite user p =
    let (added, invites) = SafeMap.set_store ℤ_discrete user p.invites in
    (added, record p { invites = invites })

unfoldable pub uninvite : ℤ → Peer → Bool × Peer
uninvite user p =
    let (removed, invites) = SafeMap.set_delete ℤ_discrete user p.invites in
    (removed, record p { invites = invites })
