-- ===== src/Routes/Chat/Members.antt =====
-- server/internal/routes/game/chat/sendText.go: who gets a text.
use Prim.Native.String.{String}
use fragua_age.Prelude.{
  ◌≡◌, refl, inl, inr, Bool, true, ◌&&◌, none, some, List, [], ◌∷◌, arith, is_some, Option-cases,
  Bool-cases, if◌then◌else◌,
}
use fragua_age.Prelude.Int.{ℤ, ℤ_discrete}
use fragua_age.Json.{Json, nat}
use fragua_age.OrderedMap.Refinement.{lookup}
use fragua_age.OrderedMap.Iteration.{contents, readers-Implements}
use fragua_age.User.{User}
use fragua_age.ChatChannel
use fragua_age.ChatChannel.{ChatChannel}
use fragua_age.ChatChannel.Members.{Has}
use fragua_age.Routes.{Envelope}
use fragua_age.Routes.Chat.{
  Game, Channels, id_of, profile, text_all, texted, text_content, send_text,
}

abbrev pub all_online : Game → List (ℤ × User) → Bool
all_online g [] = true
all_online g ((id, u) ∷ l) = is_some (g.post.client_version u.id) && all_online g l

abbrev pub text_to : List Json → List (ℤ × User) → List Envelope
text_to content [] = []
text_to content ((id, u) ∷ l) = (u.id, ("ChannelChatMessage", content)) ∷ text_to content l

text_all-members :
    (g : Game) (content : List Json) (l : List (ℤ × User))
    → text_all g content (contents l) ≡ (if all_online g l then some (text_to content l) else none)
unfolding text_all
text_all-members g content [] = refl
text_all-members g content ((id, u) ∷ l) =
    let rest = text_all-members g content l in
    elim (Option-cases (g.post.client_version u.id)) [
      | inl n ↦ ground (arith, n)
      | inr (version, e) ↦ elim (Bool-cases (all_online g l)) [
        | inl h ↦ ground (arith, e, rest, h)
        | inr h ↦ ground (arith, e, rest, h)
      ]
    ]

-- From a known user who is in the channel, SendText returns exactly if every member of the channel has a session;
-- then it answers with success and sends the text to every member once, the sender included, in the order
-- in which they came. Otherwise it panics.
pub send_text-members :
    (g : Game) (id user : ℤ) (message : String) (u : User) (channels : Channels)
    (channel : ChatChannel User) (l : List (ℤ × User))
    → ChatChannel.get_by_id id channels ≡ some channel
    → g.site.users user ≡ some u
    → Has id_of (profile g) g.zero_user channel l
    → is_some (lookup ℤ_discrete u.id l) ≡ true
    → send_text g (some (id, message)) user channels ≡ (
        if all_online g l then some (nat 0 ∷ [], text_to (text_content g id u message) l) else none)
unfolding send_text texted ChatChannel.has_user ChatChannel.get_users
send_text-members g id user message u channels channel l found known h member =
    let r = readers-Implements ℤ_discrete g.zero_user channel.users l h in
    let all = text_all-members g (text_content g id u message) l in
    elim (Bool-cases (all_online g l)) [
      | inl online ↦ ground (arith, found, known, r.1, r.5 u.id, member, all, online)
      | inr offline ↦ ground (arith, found, known, r.1, r.5 u.id, member, all, offline)
    ]
