-- ===== src/User.antt =====
-- server/internal/models/user.go: a user, the responses that hold one, and the users of a game. The
-- handles on persistent data are not modelled, except that an encoded user holds the avatar metadata.
pub mod Identity
pub mod Accounts
use Prim.Native.String.{String, ◌++◌ as ◌<>◌, char_at, len as text_length}
use fragua_age.Prelude.{
  ℕ, zero, suc, ◌+◌, ◌*◌, ◌%◌, ◌/◌, ◌^◌, Bool, true, false, not, ◌&&◌, ◌==◌, Option, none, some,
  List, [], ◌∷◌, ◌++◌, map, length, take, drop, ltb, if◌then◌else◌,
}
use fragua_age.Prelude.Int.{ℤ, pos, negsuc, eq_ℤ, ℤ_discrete, String_discrete}
use fragua_age.Json.{Json, null, num, str, nat, array}
use fragua_age.GoMap
use fragua_age.GoMap.{GoMap}
use fragua_age.SafeMap
use fragua_age.SafeMap.{SafeMap}

-- MainUser
pub record User : Type 0 where
  pub id : ℤ
  pub stat_id : ℤ
  pub alias : String
  pub platform_user_id : ℕ
  pub profile_id : ℤ
  pub reliclink : ℤ
  pub is_xbox : Bool
  -- what the data behind GetAvatarMetadata is encoded as
  pub avatar_metadata : Json
  pub presence : ℤ
  -- nil for AoE1
  pub presence_properties : Option (SafeMap ℤ String)

-- What the code takes from Go's libraries.
pub record Runtime : Type 0 where
  -- strconv.Itoa, and strconv.FormatUint in base 10
  pub itoa : ℤ → String
  pub format_uint : ℕ → String
  -- the bytes of a string
  pub bytes : String → List ℕ
  -- the draw of this number by IntN(16), from a PCG generator with both seeds the same
  pub hex_draw : ℕ → ℕ → ℕ
  -- Int64N of this bound, the first draw of a PCG generator with these seeds
  pub int64_n : ℕ → ℕ → ℕ → ℕ
  -- the draw of this number by Int32, from a PCG generator with the FNV-1a hash of the text as seeds
  pub int32 : String → ℕ → ℤ

-- GetPlatformUserID's user on a platform, GetPlatformId, GetPlatformRelated
unfoldable pub get_platform_id : User → ℤ
get_platform_id u = if u.is_xbox then pos 9 else pos 3

unfoldable pub get_platform_related : User → ℕ
get_platform_related u = if u.is_xbox then 3 else 0

module _ (go : Runtime) where
  -- the digits of generateFullPlatformUserIdXbox from the one of number `j`
  xbox_digits : ℕ → ℕ → ℕ → String
  xbox_digits seed j zero = ""
  xbox_digits seed j (suc left) =
      String.◌∷◌ (char_at "0123456789ABCDEF" (go.hex_draw seed j)) (xbox_digits seed (suc j) left)

  generate_full_platform_user_id_xbox : ℕ → String
  unfolding xbox_digits
  generate_full_platform_user_id_xbox id = xbox_digits id 0 40

  unfoldable pub get_platform_path : Bool → ℕ → String
  unfolding generate_full_platform_user_id_xbox
  get_platform_path true id = "/xboxlive/" <> generate_full_platform_user_id_xbox id
  get_platform_path false id = "/steam/" <> go.format_uint id

  -- EncodeExtraProfileInfo
  unfoldable pub encode_extra_profile_info : ℕ → User → List Json
  encode_extra_profile_info version u =
      (num u.stat_id
        ∷ nat 0
        ∷ nat 0
        ∷ nat 1
        ∷ num (negsuc 0)
        ∷ nat 0
        ∷ nat 0
        ∷ num (negsuc 0)
        ∷ num (negsuc 0)
        ∷ num (negsuc 0)
        ∷ num (negsuc 0)
        ∷ num (negsuc 0)
        ∷ nat 1000
        ∷ nat 1713372625
        ∷ nat 0
        ∷ nat 0
        ∷ nat 0
        ∷ [])
      ++ (if ltb version 190 then [] else nat 0 ∷ nat 0 ∷ [])

  -- EncodeProfileInfo: the first number is 2024-05-02 03:34 UTC
  unfoldable pub encode_profile_info : ℕ → User → List Json
  unfolding get_platform_path get_platform_related get_platform_id
  encode_profile_info version u =
      (nat 1714620840
        ∷ num u.id
        ∷ str (get_platform_path u.is_xbox u.platform_user_id)
        ∷ u.avatar_metadata
        ∷ str u.alias
        ∷ [])
      ++ (if ltb version 190 then [] else str u.alias ∷ [])
      ++ (str ""
          ∷ num u.stat_id
          ∷ nat 0
          ∷ nat 9999
          ∷ nat (get_platform_related u)
          ∷ null
          ∷ str (go.format_uint u.platform_user_id)
          ∷ num (get_platform_id u)
          ∷ array []
          ∷ [])

-- the labels of the presences by their ids; a nil *string is `none`
abbrev pub PresenceDefinitions : Type 0
PresenceDefinitions = GoMap ℤ (Option String)

abbrev pub label : Option String → Json
label none = null
label (some l) = str l

-- A slice that was never appended to is nil, which is encoded as null.
abbrev pub slice_or_nil : List Json → Json
slice_or_nil [] = null
slice_or_nil (j ∷ js) = array (j ∷ js)

-- EncodePresence; `range` is the order of the iteration over the properties
unfoldable pub encode_presence :
    (GoMap ℤ String → List (ℤ × String)) → Option PresenceDefinitions → User → List Json
encode_presence range none u = []
encode_presence range (some definitions) u = elim u.presence_properties [
  | none ↦ []
  | some properties ↦ elim (GoMap.get ℤ_discrete definitions u.presence) [
    | none ↦ []
    | some l ↦
        num u.presence
        ∷ label l
        ∷ slice_or_nil (map (λ e. array (num e.0 ∷ str e.1 ∷ [])) (SafeMap.iter range properties))
        ∷ []
  ]
]

unfoldable pub set_presence : ℤ → User → User
set_presence presence u = record u { presence = presence }

-- SetPresenceProperty: the map of AoE1 is nil, so the call panics
unfoldable pub set_presence_property : ℤ → String → User → Option User
set_presence_property id value u = elim u.presence_properties [
  | none ↦ none
  | some properties ↦ some (record u {
    presence_properties = some (
        if text_length value == 0
        then SafeMap.delete ℤ_discrete id properties
        else (SafeMap.store ℤ_discrete id value (some (λ _. true)) properties).1);
  })
]

-- generatePlatformUserIdSteam and generatePlatformUserIdXbox of a draw: an int64, then a uint64
unfoldable pub generate_platform_user_id_steam : ℕ → ℕ
generate_platform_user_id_steam z = (z * 2 + z % 2 + 76561197960265728) % 2 ^ 64

unfoldable pub generate_platform_user_id_xbox : ℕ → ℕ
generate_platform_user_id_xbox draw = (draw + 1000000000000000) % 2 ^ 64

-- copy(entropy[:n], bytes) of a slice of zeros
unfoldable pub copied : ℕ → List ℕ → List ℕ
copied zero bs = []
copied (suc n) [] = 0 ∷ copied n []
copied (suc n) (b ∷ bs) = b ∷ copied n bs

abbrev pub or_empty : Option (List ℕ) → List ℕ
or_empty none = []
or_empty (some bs) = bs

-- The 16 bytes of entropy: of the MAC address and the IPv4 address, if they could be parsed, and of
-- the first bytes of the alias.
unfoldable pub entropy : Option (List ℕ) → Option (List ℕ) → List ℕ → List ℕ
unfolding copied
entropy mac ipv4 alias = copied 6 (or_empty mac) ++ (copied 4 (or_empty ipv4) ++ copied 6 alias)

-- binary.BigEndian.Uint64
big_endian : ℕ → List ℕ → ℕ
big_endian n [] = n
big_endian n (b ∷ bs) = big_endian (256 * n + b) bs

unfoldable pub uint64 : List ℕ → ℕ
unfolding big_endian
uint64 bs = big_endian 0 bs

unfoldable pub seeds : List ℕ → ℕ × ℕ
unfolding uint64
seeds bytes = (uint64 (take 8 bytes), uint64 (drop 8 bytes))

-- Who logs in: the addresses are what net.ParseMAC and net.ParseIP (then To4) make of them.
pub record Arrival : Type 0 where
  pub mac : Option (List ℕ)
  pub ipv4 : Option (List ℕ)
  pub is_xbox : Bool
  pub platform_user_id : ℕ
  pub alias : String

-- MainUsers: the store. The users of AoM have PlayFab data besides, and one may be nil.
abbrev pub UsersOf : Type 0 → Type 0
UsersOf U = SafeMap String U

abbrev pub Users : Type 0
Users = UsersOf User

-- GenerateFn: a user from the identifier, the platform, the platform's id and the alias. The data that a
-- user is made with, such as the persistent data of this id, are part of the function.
abbrev pub GenerateFn : Type 0 → Type 0
GenerateFn U = String → Bool → ℕ → String → U

-- Initialize: the GenerateFn of the title, if it has one, and otherwise Generate
unfoldable pub initialized : {U : Type 0} → GenerateFn U → Option (GenerateFn U) → GenerateFn U
initialized generate none = generate
initialized generate (some generate_fn) = generate_fn

module _ (go : Runtime) where
  -- the platform's id of the user: a generated one, if the server is set to generate them
  unfoldable pub platform_user_id_of : Bool → Arrival → ℕ
  unfolding seeds entropy
  platform_user_id_of generate a =
      let (seed1, seed2) = seeds (entropy a.mac a.ipv4 (go.bytes a.alias)) in
      if generate
      then (if a.is_xbox
          then generate_platform_user_id_xbox (go.int64_n 9000000000000000 seed1 seed2)
          else generate_platform_user_id_steam (go.int64_n (2 ^ 31) seed1 seed2))
      else a.platform_user_id

  -- Generate; `title_is_aoe1`: this title has no presence properties
  unfoldable pub generate : Bool → Json → String → Bool → ℕ → String → User
  generate title_is_aoe1 avatar identifier is_xbox platform_user_id alias = record {
    id = go.int32 identifier 0;
    stat_id = go.int32 identifier 1;
    alias = alias;
    platform_user_id = platform_user_id;
    profile_id = go.int32 identifier 2;
    reliclink = go.int32 identifier 3;
    is_xbox = is_xbox;
    avatar_metadata = avatar;
    presence = pos 0;
    presence_properties = if title_is_aoe1 then none else some SafeMap.new_safe_map;
  }

  -- GetOrCreateUser
  unfoldable pub get_or_create_user :
      {U : Type 0} → Bool → GenerateFn U → Arrival → UsersOf U → U × UsersOf U
  unfolding platform_user_id_of get_platform_path
  get_or_create_user generated generate_fn a users =
      let id = platform_user_id_of generated a in
      let identifier = get_platform_path go a.is_xbox id in
      let (r, users') =
        SafeMap.load_or_store_fn String_discrete identifier
          (λ _. generate_fn identifier a.is_xbox id a.alias) users in
      (r.0, users')

-- getFirst over the values in the order of a `range`
first_where : (User → Bool) → List User → Option User
first_where p [] = none
first_where p (u ∷ us) = let rest = first_where p us in if p u then some u else rest

module _ (range : GoMap String User → List (String × User)) where
  unfoldable pub get_first : (User → Bool) → Users → Option User
  unfolding first_where
  get_first p users = first_where p (SafeMap.values range users)

  unfoldable pub get_user_by_stat_id : ℤ → Users → Option User
  unfolding get_first
  get_user_by_stat_id id users = get_first (λ u. eq_ℤ u.stat_id id) users

  unfoldable pub get_user_by_id : ℤ → Users → Option User
  unfolding get_first
  get_user_by_id id users = get_first (λ u. eq_ℤ u.id id) users

  unfoldable pub get_user_by_platform_user_id : Bool → ℕ → Users → Option User
  unfolding get_first
  get_user_by_platform_user_id xbox id users =
      get_first (λ u. (if xbox then u.is_xbox else not u.is_xbox) && (u.platform_user_id == id))
        users

  unfoldable pub get_user_ids : Users → List ℤ
  get_user_ids users = map (λ (u : User). u.id) (SafeMap.values range users)
