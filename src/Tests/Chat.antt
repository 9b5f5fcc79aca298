-- ===== src/Tests/Chat.antt =====
-- The theorem on the chat channels, applied: users come, go, and come again.
use fragua_age.Prelude.{ℕ, ◌≡◌, refl, none, some, List, [], ◌∷◌, is_some, if◌then◌else◌, ℕ_discrete}
use fragua_age.Prelude.Int.{ℤ, pos, ℤ_discrete}
use fragua_age.GoMap
use fragua_age.OrderedMap
use fragua_age.User.{User}
use fragua_age.ChatChannel
use fragua_age.Routes.Chat.{Game, Channels, text_content, send_text}
use fragua_age.Routes.Chat.Members.{all_online, text_to, send_text-members}
use fragua_age.Tests.{user, site, post}
use fragua_age.Json.{Json, nat}
use fragua_age.OrderedMap.Refinement.{lookup, spec_store, store-Implements, new-Implements}
use fragua_age.OrderedMap.Iteration.{contents}
use fragua_age.ChatChannel.{ChatChannel, new_chat_channel, get_users, has_user}
use fragua_age.ChatChannel.Members.{Event, comes, goes, run, spec_run, run-new_chat_channel}

abbrev profile : ℕ → ℕ → Json
profile user version = nat user

abbrev events : List (Event ℕ)
events = comes 4 7 ∷ comes 3 7 ∷ comes 4 8 ∷ goes 4 ∷ comes 5 7 ∷ []

run-new_chat_channel_example :
    (channel : ChatChannel ℕ) × (run pos profile 0 events (new_chat_channel (pos 1) "main")
      ≡ some ((spec_run pos profile 0 events []).0, channel))
    × (get_users pos profile 0 channel ≡ contents (spec_run pos profile 0 events []).1)
    × ((user : ℕ)
        → has_user pos profile 0 user channel
          ≡ is_some (lookup ℤ_discrete (pos user) (spec_run pos profile 0 events []).1))
run-new_chat_channel_example = run-new_chat_channel pos profile 0 (pos 1) "main" events

-- User 11, who has a session, is alone in channel 1.
abbrev members : List (ℤ × User)
members = (spec_store ℤ_discrete (pos 11) (user 11) none []).1

abbrev main_channel : ChatChannel User
main_channel = record {
  id = pos 1;
  name = "main";
  users = (OrderedMap.store ℤ_discrete (pos 11) (user 11) none OrderedMap.new_ordered_map).1;
}

abbrev channels : Channels
channels = OrderedMap.new_read_only (pos 1 ∷ []) (record { entries = (pos 1, main_channel) ∷ [] })

abbrev game : Game
game = record { site = site; post = post; user_ids = pos 10 ∷ pos 11 ∷ []; zero_user = user 0 }

send_text-members_example : send_text game (some (pos 1, "hello")) (pos 11) channels ≡ (
    if all_online game members
    then some (nat 0 ∷ [], text_to (text_content game (pos 1) (user 11) "hello") members)
    else none)
unfolding OrderedMap.new_read_only OrderedMap.read_only_load GoMap.get ℤ_discrete ℕ_discrete
    ChatChannel.get_by_id spec_store
send_text-members_example =
    send_text-members game (pos 1) (pos 11) "hello" (user 11) channels main_channel members refl
      refl
      (store-Implements ℤ_discrete OrderedMap.new_ordered_map [] (new-Implements ℤ_discrete)
        (pos 11) (user 11) none).1
      refl
