-- ===== src/Routes/Party/Adding.antt =====
-- server/internal/routes/game/party/peerAdd.go: what PeerAdd does to the matches and their users.
use Prim.Native.String.{String}
use fragua_age.Prelude.{
  ◌≡◌, Bool, false, ◌&&◌, ◌||◌, Option, none, some, List, [], ◌∷◌, is_some, if◌then◌else◌,
}
use fragua_age.Prelude.Int.{ℤ, eq_ℤ}
use fragua_age.OrderedMap
use fragua_age.Advertisements.{Advertisements}
use fragua_age.Advertisements.Valid.{IsValid}
use fragua_age.Advertisements.Presence.{is_in, has, same}
use fragua_age.User.{User}
use fragua_age.Routes.{Site, Writes, fails, succeeds}
use fragua_age.Routes.Changes.Answering.{match_at}
use fragua_age.Routes.Party.{PeerRequest, parse_parameters, users_of}

abbrev pub ids_of : List User → List ℤ
ids_of [] = []
ids_of (u ∷ us) = u.id ∷ ids_of us

-- What the loop leaves, for as many races and teams as users.
record Entered (id : ℤ) (us : List User) (s : Advertisements) (m : Option (List ℤ × Advertisements))
    : Type 0 where
  t : Advertisements
  run : m ≡ some (ids_of us, t)
  valid : IsValid t
  now : (j u : ℤ) → is_in t j u ≡ (is_in s j u || (same id j && has u (ids_of us)))

-- The match and the users that a request adds, if it is accepted: its lists are of one length, the match
-- exists and the user is its host, and all profiles are known.
abbrev pub accepted_users : PeerRequest → Option (List User) → Option (ℤ × List ℤ)
accepted_users q none = none
accepted_users q (some us) = some (q.match_id, ids_of us)

abbrev pub accepted : Site → Option PeerRequest → ℤ → Advertisements → Option (ℤ × List ℤ)
accepted site q user s = elim (parse_parameters q) [
  | none ↦ none
  | some q ↦ elim (match_at s q.match_id) [
    | none ↦ none
    | some adv ↦
        if eq_ℤ adv.host_id user then accepted_users q (users_of site q.profile_ids) else none
  ]
]

abbrev pub enters : Option (ℤ × List ℤ) → ℤ → ℤ → Bool
enters none j u = false
enters (some (id, ids)) j u = same id j && has u ids

record Outcome (a : Option (ℤ × List ℤ)) (s : Advertisements) (m : Option (Writes × Advertisements))
    : Type 0 where
  t : Advertisements
  run : m ≡ some ((if is_some a then succeeds else fails), t)
  valid : IsValid t
  now : (j u : ℤ) → is_in t j u ≡ (is_in s j u || enters a j u)
