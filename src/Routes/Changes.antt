-- ===== src/Routes/Changes.antt =====
-- server/internal/routes/game/advertisement: update.go, updateState.go, updateTags.go and
-- updatePlatformLobbyID.go, which change one match. A message to a user is a pair; the sessions, the
-- challenge data and strconv are in `Live`. What a handler has changed before a panic is not kept.
pub mod Answering
pub mod Rosters
use Prim.Native.String.{String}
use fragua_age.Prelude.{
  ℕ, ◌-◌, ◌^◌, suc, Bool, true, false, not, ◌&&◌, ◌==◌, Option, none, some, List, [], ◌∷◌, ◌++◌,
  map, length, is_some, if◌then◌else◌,
}
use fragua_age.Prelude.Int.{ℤ, pos, negsuc, eq_ℤ, ℤ_discrete, String_discrete}
use fragua_age.Json.{Json, num, str, nat, array}
use fragua_age.Game.{Title, aoe1, aoe3, has_platform_lobby}
use fragua_age.GoMap
use fragua_age.GoMap.{GoMap}
use fragua_age.OrderedMap
use fragua_age.Peer.{Peer}
use fragua_age.Advertisement
use fragua_age.Advertisement.{Advertisement, UpdateRequest}
use fragua_age.Advertisements.{M, pure, ◌>>=◌, ◌>>◌, deref, assign, get_advertisement}
use fragua_age.Routes.{Site, Writes, fails, succeeds}

-- updateReturnError
update_error : Title → List Json
update_error aoe1 = num (pos 2) ∷ []
update_error _ = num (pos 2) ∷ array [] ∷ []

-- gameTitle == game.AoE1 || gameTitle == game.AoE3
abbrev pub is_aoe1_or_aoe3 : Title → Bool
is_aoe1_or_aoe3 aoe1 = true
is_aoe1_or_aoe3 aoe3 = true
is_aoe1_or_aoe3 _ = false

-- UnsafeUpdate, and UnsafeUpdatePlatformSessionId for two titles
unfoldable pub updated : Title → ℕ → UpdateRequest → Advertisement → Advertisement
updated title now q adv =
    if is_aoe1_or_aoe3 title
    then Advertisement.update_platform_session_id q.psn_session_id
        (Advertisement.update now (record q { joinable = true }) adv)
    else Advertisement.update now q adv

-- The response; the encoding of the match may panic.
update_reply : Option (List Json) → M Writes
update_reply none s = none
update_reply (some encoded) s = some ((num (pos 0) ∷ array encoded ∷ []) ∷ [], s)

update_found : Site → ℕ → UpdateRequest → Option ℕ → M Writes
unfolding deref assign updated update_reply update_error
update_found site now q none = pure (update_error site.title ∷ [])
update_found site now q (some p) = do
  adv ← deref p
  assign p (updated site.title now q adv)
  if has_platform_lobby site.title
      then update_reply (
          Advertisement.encode site.zero_peer site.title site.battle_servers
            (updated site.title now q adv))
      else pure succeeds

-- Update
unfoldable pub update : Site → ℕ → Option (ℤ × UpdateRequest) → M Writes
unfolding update_found update_error get_advertisement
update site now none = pure (update_error site.title ∷ [])
update site now (some (id, q)) = do found ← get_advertisement id; update_found site now q found

pub record TagRequest : Type 0 where
  pub numeric_names : List String
  pub numeric_values : List ℤ
  pub string_names : List String
  pub string_values : List String

fill_tags : {V : Type 0} → List String → List V → GoMap String V → GoMap String V
fill_tags (k ∷ ks) (v ∷ vs) m = fill_tags ks vs (GoMap.set String_discrete m k v)
fill_tags _ _ m = m

-- parseTags
unfoldable pub parse_tags : Option TagRequest → Option (GoMap String ℤ × GoMap String String)
unfolding fill_tags
parse_tags none = none
parse_tags (some t) =
    if (length t.string_names == length t.string_values)
      && (length t.numeric_names == length t.numeric_values)
    then some (
      fill_tags t.numeric_names t.numeric_values GoMap.empty,
      fill_tags t.string_names t.string_values GoMap.empty,
    )
    else none

tags_found : GoMap String ℤ → GoMap String String → ℤ → Option ℕ → M Writes
unfolding deref assign
tags_found integer text user none = pure fails
tags_found integer text user (some p) = do
  adv ← deref p
  if not (eq_ℤ adv.host_id user)
      then pure fails
      else (do assign p (Advertisement.update_tags integer text adv); pure succeeds)

-- UpdateTags, by the user of the session
unfoldable pub update_tags : Option TagRequest → Option ℤ → ℤ → M Writes
unfolding parse_tags tags_found get_advertisement
update_tags t id user s = elim (parse_tags t) [
  | none ↦ some (fails, s)
  | some (integer, text) ↦ elim id [
    | none ↦ some (fails, s)
    | some id ↦ (do found ← get_advertisement id; tags_found integer text user found) s
  ]
]

-- The world around the matches.
pub record Live : Type 0 where
  -- Sessions().GetByUserId has a session
  pub has_session : ℤ → Bool
  pub challenge_progress : Json
  -- strconv.Itoa
  pub itoa : ℤ → String

-- messages to users, in the order in which they are sent
abbrev pub Messages : Type 0
Messages = List (ℤ × List Json)

-- uint64 of an int64
unfoldable pub to_uint64 : ℤ → ℕ
to_uint64 (pos n) = n
to_uint64 (negsuc n) = 2 ^ 64 - suc n

unfoldable pub present : Live → List ℤ → List ℤ
present live [] = []
present live (u ∷ us) = let rest = present live us in if live.has_session u then u ∷ rest else rest

platform_message : Title → ℤ → String → ℕ → List Json
platform_message title id metadata value =
    (num id ∷ str metadata ∷ nat value ∷ [])
    ++ (if has_platform_lobby title then nat 0 ∷ str "" ∷ str "" ∷ [] else [])

module _ (site : Site) (live : Live) where
  platform_id_found : ℤ → ℕ → ℤ → Option ℕ → M (Writes × Messages)
  unfolding deref assign present platform_message
  platform_id_found id value user none = pure (fails, [])
  platform_id_found id value user (some p) = do
    adv ← deref p
    if is_some (OrderedMap.load ℤ_discrete adv.peers user)
        then (do
          assign p (Advertisement.update_platform_session_id value adv)
          let message = platform_message site.title id adv.xbox_session_id value
          pure (succeeds, map (λ u. (u, message)) (present live (OrderedMap.keys adv.peers).1)))
        else pure (fails, [])

  -- updatePlatformID; `value` is the parsed form value
  unfoldable pub update_platform_id : Option ℤ → Option ℤ → ℤ → M (Writes × Messages)
  unfolding platform_id_found to_uint64 get_advertisement
  update_platform_id none value user = pure (fails, [])
  update_platform_id (some id) none user = pure (fails, [])
  update_platform_id (some id) (some value) user = do
    found ← get_advertisement id
    platform_id_found id (to_uint64 value) user found

  -- The message that tells the users of a started match.
  start_message : ℕ → List Json → List (ℤ × Peer) → List Json
  start_message start encoded peers =
      array (map (λ (u, _). array (num u ∷ array [] ∷ [])) peers)
      ∷ array (map (λ (u, p). array (str (live.itoa u) ∷ str (live.itoa p.race) ∷ [])) peers)
      ∷ nat start
      ∷ array (map (λ (u, _). array (str (live.itoa u) ∷ array [] ∷ [])) peers)
      ∷ array encoded
      ∷ array (map (λ (u, _). array (str (live.itoa u) ∷ live.challenge_progress ∷ [])) peers)
      ∷ []

  pub all_present : List (ℤ × Peer) → Bool
  all_present [] = true
  all_present ((u, _) ∷ peers) = let rest = all_present peers in live.has_session u && rest

  -- The loops over the peers and the sessions. A peer without a session leaves a nil session behind,
  -- and SendOrStoreMessage panics on it.
  announce : ℕ → List (ℤ × Peer) → Option (List Json) → M (Writes × Messages)
  unfolding start_message all_present
  announce start peers none s = none
  announce start peers (some encoded) s =
      if all_present peers
      then some ((succeeds, map (λ (u, _). (u, start_message start encoded peers)) peers), s)
      else none

  state_found : ℕ → ℤ → Option ℕ → M (Writes × Messages)
  unfolding deref assign announce
  state_found now state none = pure (fails ++ fails, [])
  state_found now state (some p) = do
    adv ← deref p
    let changed = Advertisement.update_state now state adv
    assign p changed
    -- in another state the iterator of the peers is nil, and the loop over it panics
    if eq_ℤ changed.state (pos 1)
        then announce changed.start_time (OrderedMap.iter ℤ_discrete site.zero_peer changed.peers).1
            (Advertisement.encode site.zero_peer site.title site.battle_servers changed)
        else (λ s. none)

  -- UpdateState
  unfoldable pub update_state : ℕ → Option (ℤ × ℤ) → M (Writes × Messages)
  unfolding state_found get_advertisement
  update_state now none = pure (fails, [])
  update_state now (some (id, state)) = do found ← get_advertisement id; state_found now state found
