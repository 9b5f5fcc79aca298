-- ===== src/ChatChannel.antt =====
-- server/internal/models/chatChannel.go: the chat channels and the users in them. Of a user the code
-- reads the id and the encoded profile, which are parameters.
pub mod Members
use Prim.Native.String.{String}
use fragua_age.Prelude.{ℕ, Bool, Option, none, some, List, [], ◌∷◌, map, is_some}
use fragua_age.Prelude.Int.{ℤ, ℤ_discrete}
use fragua_age.Json.{Json, num, str, nat, array}
use fragua_age.GoMap
use fragua_age.GoMap.{GoMap}
use fragua_age.OrderedMap
use fragua_age.OrderedMap.{OrderedMap}

pub record ChatChannel (U : Type 0) : Type 0 where
  pub id : ℤ
  pub name : String
  pub users : OrderedMap ℤ U

module _ {U : Type 0} where
  unfoldable pub new_chat_channel : ℤ → String → ChatChannel U
  new_chat_channel id name = record { id = id; name = name; users = OrderedMap.new_ordered_map }

  unfoldable pub encode : ChatChannel U → List Json
  encode channel =
      num channel.id ∷ str channel.name ∷ str "" ∷ nat (OrderedMap.len channel.users) ∷ []

module _ {U : Type 0} (user_id : U → ℤ) (encode_profile : U → ℕ → Json) (zero_user : U) where
  unfoldable pub get_users : ChatChannel U → List U
  get_users channel = (OrderedMap.values ℤ_discrete zero_user channel.users).1

  abbrev pub encode_user : ℕ → ℤ × U → Json
  encode_user version (_, user) = array (nat 0 ∷ encode_profile user version ∷ [])

  -- AddUser: whether the user was there, and the users that were there
  unfoldable pub add_user : U → ℕ → ChatChannel U → (Bool × List Json) × ChatChannel U
  add_user user version channel =
      let (r, users) =
        OrderedMap.iter_and_store ℤ_discrete zero_user (user_id user) user none
          (λ count entries. map (encode_user version) entries) channel.users in
      ((r.1, r.0), record channel { users = users })

  unfoldable pub remove_user : U → ChatChannel U → Option (Bool × ChatChannel U)
  remove_user user channel = elim (OrderedMap.delete ℤ_discrete (user_id user) channel.users) [
    | none ↦ none
    | some (existed, users) ↦ some (existed, record channel { users = users })
  ]

  unfoldable pub has_user : U → ChatChannel U → Bool
  has_user user channel = is_some (OrderedMap.load ℤ_discrete channel.users (user_id user))

-- MainChatChannels
abbrev pub ChatChannels : Type 0 → Type 0
ChatChannels U = OrderedMap.Base ℤ (ChatChannel U)

module _ {U : Type 0} where
  -- the loop of Initialize over the entries of the map, in one order; `parse` is strconv.ParseInt
  fill :
      (String → Option ℤ)
      → List (String × String)
      → GoMap ℤ (ChatChannel U)
      → Option (List ℤ × GoMap ℤ (ChatChannel U))
  unfolding new_chat_channel
  fill parse [] m = some ([], m)
  fill parse ((key, name) ∷ entries) m = elim (parse key) [
    | none ↦ none
    | some id ↦ elim (fill parse entries (GoMap.set ℤ_discrete m id (new_chat_channel id name))) [
      | none ↦ none
      | some (ids, m') ↦ some (id ∷ ids, m')
    ]
  ]

  -- Initialize: `none` is the panic on a key that is no number
  unfoldable pub initialize : (String → Option ℤ) → List (String × String) → Option (ChatChannels U)
  unfolding fill
  initialize parse entries = elim (fill parse entries GoMap.empty) [
    | none ↦ none
    | some (ids, m) ↦ some (OrderedMap.new_read_only ids m)
  ]

  unfoldable pub encode_all : ChatChannel U → ChatChannels U → List Json
  unfolding encode
  encode_all zero_channel channels =
      map (λ c. array (encode c)) (OrderedMap.read_only_values ℤ_discrete zero_channel channels)

  unfoldable pub get_by_id : ℤ → ChatChannels U → Option (ChatChannel U)
  get_by_id id channels = OrderedMap.read_only_load ℤ_discrete channels id
