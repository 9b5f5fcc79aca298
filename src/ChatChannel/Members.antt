-- ===== src/ChatChannel/Members.antt =====
-- A chat channel against the list of its members, in the order in which they came.
use Prim.Native.String.{String}
use fragua_age.Prelude.{
  ℕ, ◌≡◌, refl, sym, ◌∙◌, ap, Bool, Option, none, some, List, [], ◌∷◌, map, is_some, arith,
}
use fragua_age.Prelude.Int.{ℤ, ℤ_discrete}
use fragua_age.Json.{Json}
use fragua_age.OrderedMap
use fragua_age.OrderedMap.{OrderedMap, base_iter}
use fragua_age.OrderedMap.Refinement.{
  Implements, lookup, spec_store, spec_delete, store-Implements, delete-Implements, new-Implements,
}
use fragua_age.OrderedMap.Iteration.{contents, readers-Implements}
use fragua_age.ChatChannel.{
  ChatChannel, new_chat_channel, add_user, remove_user, has_user, get_users, encode_user,
}

-- A user comes in, for a client of a version, or goes.
pub data Event (U : Type 0) : Type 0 where
  comes : U → ℕ → Event U
  goes : U → Event U

pub data Answer : Type 0 where
  came : Bool × List Json → Answer
  went : Bool → Answer

module _ {U : Type 0} (user_id : U → ℤ) (encode_profile : U → ℕ → Json) (zero_user : U) where
  abbrev pub handle : Event U → ChatChannel U → Option (Answer × ChatChannel U)
  handle (comes user version) channel =
      let (r, channel') = add_user user_id encode_profile zero_user user version channel in
      some (came r, channel')
  handle (goes user) channel = elim (remove_user user_id encode_profile zero_user user channel) [
    | none ↦ none
    | some (existed, channel') ↦ some (went existed, channel')
  ]

  -- The specification: a list of members.
  abbrev pub spec_handle : Event U → List (ℤ × U) → Answer × List (ℤ × U)
  spec_handle (comes user version) l = (
    came (
      is_some (lookup ℤ_discrete (user_id user) l),
      map (encode_user user_id encode_profile zero_user version) l,
    ),
    (spec_store ℤ_discrete (user_id user) user none l).1,
  )
  spec_handle (goes user) l =
      let (existed, l') = spec_delete ℤ_discrete (user_id user) l in (went existed, l')

  abbrev pub run : List (Event U) → ChatChannel U → Option (List Answer × ChatChannel U)
  run [] channel = some ([], channel)
  run (e ∷ es) channel = elim (handle e channel) [
    | none ↦ none
    | some (a, channel') ↦ elim (run es channel') [
      | none ↦ none
      | some (rs, channel'') ↦ some (a ∷ rs, channel'')
    ]
  ]

  abbrev pub spec_run : List (Event U) → List (ℤ × U) → List Answer × List (ℤ × U)
  spec_run [] l = ([], l)
  spec_run (e ∷ es) l =
      let (a, l') = spec_handle e l in let (rs, l'') = spec_run es l' in (a ∷ rs, l'')

  -- The users of the channel are the members, in order.
  abbrev pub Has : ChatChannel U → List (ℤ × U) → Type 0
  Has channel l = Implements ℤ_discrete channel.users l

  seen_entries :
      (channel : ChatChannel U) (l : List (ℤ × U))
      → Has channel l
      → base_iter ℤ_discrete zero_user channel.users.base ≡ l
  unfolding OrderedMap.iter
  seen_entries channel l h =
      ap (base_iter ℤ_discrete zero_user) (sym h.synced)
      ∙ ap (λ r. r.1) (readers-Implements ℤ_discrete zero_user channel.users l h).0

  handle-Has :
      (e : Event U) (channel : ChatChannel U) (l : List (ℤ × U))
      → Has channel l
      → (channel' : ChatChannel U) × (handle e channel ≡ some ((spec_handle e l).0, channel'))
        × Has channel' (spec_handle e l).1
  unfolding add_user remove_user OrderedMap.iter_and_store spec_store
  handle-Has (comes user version) channel l h =
      let (e, h') = store-Implements ℤ_discrete channel.users l h (user_id user) user none in
      (
        record channel {
          users = (OrderedMap.store ℤ_discrete (user_id user) user none channel.users).1;
        },
        ground (arith, e, seen_entries channel l h),
        h',
      )
  handle-Has (goes user) channel l h =
      let (users, e, h') = delete-Implements ℤ_discrete channel.users l h (user_id user) in
      (record channel { users = users }, ground (arith, e), h')

  run-Has :
      (es : List (Event U)) (channel : ChatChannel U) (l : List (ℤ × U))
      → Has channel l
      → (channel' : ChatChannel U) × (run es channel ≡ some ((spec_run es l).0, channel'))
        × Has channel' (spec_run es l).1
  run-Has [] channel l h = (channel, refl, h)
  run-Has (e ∷ es) channel l h =
      let (channel', eq, h') = handle-Has e channel l h in
      let (channel'', eq', h'') = run-Has es channel' (spec_handle e l).1 h' in
      (channel'', ground (arith, eq, eq'), h'')

  -- Whoever comes to a new channel and goes, in any order: AddUser and RemoveUser panic in no case, each
  -- answers what the list of members says, AddUser with the members before it in the order in which
  -- they came, and afterwards GetUsers yields the members in this order and HasUser says who is one.
  pub run-new_chat_channel :
      (id : ℤ) (name : String) (es : List (Event U))
      → (channel : ChatChannel U) × (run es (new_chat_channel id name)
          ≡ some ((spec_run es []).0, channel))
        × (get_users user_id encode_profile zero_user channel ≡ contents (spec_run es []).1)
        × ((user : U)
            → has_user user_id encode_profile zero_user user channel
              ≡ is_some (lookup ℤ_discrete (user_id user) (spec_run es []).1))
  unfolding get_users has_user new_chat_channel
  run-new_chat_channel id name es =
      let (channel, e, h) = run-Has es (new_chat_channel id name) [] (new-Implements ℤ_discrete) in
      let r = readers-Implements ℤ_discrete zero_user channel.users (spec_run es []).1 h in
      (channel, e, ground (arith, r.1), λ user. ground (arith, r.5 (user_id user)))
