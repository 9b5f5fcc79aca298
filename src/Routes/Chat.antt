-- ===== src/Routes/Chat.antt =====
-- server/internal/routes/game/chat: joinChannel.go, leaveChannel.go, sendText.go and sendWhisper.go, by
-- the user of the session. A handler is a function of the channels; its result is the response and the
-- messages that it sends, or `none`, a panic.
pub mod Members
use Prim.Native.String.{String}
use fragua_age.Prelude.{
  ℕ, Bool, true, false, not, ◌&&◌, ◌||◌, ◌==◌, Option, none, some, List, [], ◌∷◌, ◌++◌, map,
  is_some, if◌then◌else◌,
}
use fragua_age.Prelude.Int.{ℤ, eq_ℤ, ℤ_discrete}
use fragua_age.Json.{Json, str, nat, array}
use fragua_age.GoMap
use fragua_age.Game.{Title, aoe4, aom}
use fragua_age.OrderedMap
use fragua_age.User.{User, encode_profile_info}
use fragua_age.ChatChannel
use fragua_age.ChatChannel.{ChatChannel, ChatChannels}
use fragua_age.Routes.{Site, Post, Envelope}

-- What the chat handlers read of their game: the users, and their ids in the order of Users().GetUserIds.
pub record Game : Type 0 where
  pub site : Site
  pub post : Post
  pub user_ids : List ℤ
  -- the zero value that a missing key of a map of users would read
  pub zero_user : User

abbrev pub Channels : Type 0
Channels = ChatChannels User

abbrev pub Outcome : Type 0
Outcome = (List Json × List Envelope) × Channels

abbrev pub id_of : User → ℤ
id_of u = u.id

abbrev pub profile : Game → User → ℕ → Json
profile g u version = array (encode_profile_info g.post.runtime version u)

-- A channel is a pointer: changing it changes the map's value.
put : ℤ → ChatChannel User → Channels → Channels
put id channel channels = record channels {
  internal = GoMap.set ℤ_discrete channels.internal id channel;
}

module _ (g : Game) where
  -- the users with a session, of those in a list, are sent a message
  to_present : String → List Json → List ℤ → List Envelope
  to_present action content [] = []
  to_present action content (u ∷ us) =
      let rest = to_present action content us in
      if is_some (g.post.client_version u) then (u, (action, content)) ∷ rest else rest

  join_fails : List Json
  join_fails = nat 2 ∷ str "" ∷ nat 0 ∷ array [] ∷ []

  join_by : ℤ → ℕ → Channels → ChatChannel User → User → Outcome
  unfolding join_fails to_present put
  join_by id version channels channel u =
      let (r, channel') = ChatChannel.add_user id_of (profile g) g.zero_user u version channel in
      let text = str (g.post.runtime.itoa id) in
      if r.0 then ((join_fails, []), put id channel' channels) else (
        (
          nat 0 ∷ text ∷ nat 0 ∷ array r.1 ∷ [],
          to_present "ChannelJoinMessage" (text ∷ array (nat 0 ∷ profile g u version ∷ []) ∷ [])
              g.user_ids,
        ),
        put id channel' channels,
      )

  -- JoinChannel
  unfoldable pub join_channel : Option ℤ → ℤ → ℕ → Channels → Outcome
  unfolding join_by join_fails
  join_channel none user version channels = ((join_fails, []), channels)
  join_channel (some id) user version channels = elim (ChatChannel.get_by_id id channels) [
    | none ↦ ((join_fails, []), channels)
    | some channel ↦ elim (g.site.users user) [
      | none ↦ ((join_fails, []), channels)
      | some u ↦ join_by id version channels channel u
    ]
  ]

  fails : List Json
  fails = nat 2 ∷ []

  without : ℤ → List ℤ → List ℤ
  without user [] = []
  without user (u ∷ us) = let rest = without user us in if eq_ℤ u user then rest else u ∷ rest

  -- NotifyLeaveChannel
  notify_leave_channel : User → ℤ → ℕ → List Envelope
  unfolding to_present without
  notify_leave_channel u id version =
      to_present "ChannelLeaveMessage" (str (g.post.runtime.itoa id) ∷ profile g u version ∷ [])
        (without u.id g.user_ids)

  left : ℤ → ℕ → Channels → User → Option (Bool × ChatChannel User) → Option Outcome
  unfolding fails notify_leave_channel put
  left id version channels u none = none
  left id version channels u (some (existed, channel)) = some (
      if existed
      then ((nat 0 ∷ [], notify_leave_channel u channel.id version), put id channel channels)
      else ((fails, []), put id channel channels))

  -- LeaveChannel
  unfoldable pub leave_channel : Option ℤ → ℤ → ℕ → Channels → Option Outcome
  unfolding left fails
  leave_channel none user version channels = some ((fails, []), channels)
  leave_channel (some id) user version channels = elim (ChatChannel.get_by_id id channels) [
    | none ↦ some ((fails, []), channels)
    | some channel ↦ elim (g.site.users user) [
      | none ↦ some ((fails, []), channels)
      | some u ↦
          left id version channels u
            (ChatChannel.remove_user id_of (profile g) g.zero_user u channel)
    ]
  ]

  -- The loop over the users of a channel: for a user without a session a nil session is called.
  text_all : List Json → List User → Option (List Envelope)
  text_all content [] = some []
  text_all content (u ∷ us) =
      let rest = text_all content us in
      elim (g.post.client_version u.id) [
        | none ↦ none
        | some version ↦ elim rest [
          | none ↦ none
          | some messages ↦ some ((u.id, ("ChannelChatMessage", content)) ∷ messages)
        ]
      ]

  texted : Option (List Envelope) → Option (List Json × List Envelope)
  texted none = none
  texted (some messages) = some (nat 0 ∷ [], messages)

  pub text_content : ℤ → User → String → List Json
  text_content id u message =
      str (g.post.runtime.itoa id) ∷ str (g.post.runtime.itoa u.id) ∷ str "" ∷ str message ∷ []

  -- SendText; it writes the response before the loop, which a panic cuts short
  unfoldable pub send_text : Option (ℤ × String) → ℤ → Channels → Option (List Json × List Envelope)
  unfolding text_all texted fails text_content
  send_text none user channels = some (fails, [])
  send_text (some (id, message)) user channels = elim (ChatChannel.get_by_id id channels) [
    | none ↦ some (fails, [])
    | some channel ↦ elim (g.site.users user) [
      | none ↦ some (fails, [])
      | some u ↦
          if ChatChannel.has_user id_of (profile g) g.zero_user u channel
          then texted (
              text_all (text_content id u message)
                (ChatChannel.get_users id_of (profile g) g.zero_user channel))
          else some (fails, [])
    ]
  ]

  is_aoe4_or_aom : Title → Bool
  is_aoe4_or_aom aoe4 = true
  is_aoe4_or_aom aom = true
  is_aoe4_or_aom _ = false

  -- whisperResult
  whisper_result : ℕ → List Json
  unfolding is_aoe4_or_aom
  whisper_result code =
      nat code ∷ (if is_aoe4_or_aom g.site.title then array (nat 0 ∷ []) ∷ [] else [])

  whisper_receivers : List ℤ → Option (List User)
  whisper_receivers [] = some []
  whisper_receivers (id ∷ ids) =
      let rest = whisper_receivers ids in
      elim (g.site.users id) [
        | none ↦ none
        | some u ↦ elim rest [ none ↦ none | some us ↦ some (u ∷ us) ]
      ]

  whispers : User → List Json → List User → List Envelope
  whispers sender message [] = []
  whispers sender message (r ∷ rs) =
      let rest = whispers sender message rs in
      elim (g.post.client_version r.id) [
        | none ↦ rest
        | some version ↦ (r.id, ("PersonalChatMessage", profile g sender version ∷ message)) ∷ rest
      ]

  -- SendWhisper; for AoE4 and AoM the ids are a list, for the other titles it is one
  unfoldable pub send_whisper : Option (String × List ℤ) → ℤ → List Json × List Envelope
  unfolding whisper_result whisper_receivers whispers is_aoe4_or_aom
  send_whisper none user = (whisper_result 2, [])
  send_whisper (some (text, ids)) user = elim (whisper_receivers ids) [
    | none ↦ (whisper_result 2, [])
    | some receivers ↦ elim (g.site.users user) [
      | none ↦ (whisper_result 2, [])
      | some sender ↦
          let message : List Json =
            str ""
            ∷ ((if is_aoe4_or_aom g.site.title then str "" ∷ str text ∷ [] else [])
                ++ str text ∷ []) in
          (whisper_result 0, whispers sender message receivers)
    ]
  ]
