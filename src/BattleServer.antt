-- ===== src/BattleServer.antt =====
-- server/internal/models/battleServer.go: the battle servers that matches are relayed through.
-- The UUID parser, the network interfaces and the parsing of addresses are not the program's:
-- `Network` and `Request` hold what they answer.
use Prim.Native.String.{String}
use fragua_age.Prelude.{ℕ, Bool, true, Option, none, some, List, [], ◌∷◌, ◌++◌, map, if◌then◌else◌}
use fragua_age.Prelude.Int.{eq_String, String_discrete}
use fragua_age.GoMap
use fragua_age.GoMap.{GoMap}
use fragua_age.OrderedMap
use fragua_age.Json.{Json, null, str, nat, array}

-- What the server knows of the networks around it.
pub record Network : Type 0 where
  -- uuid.Parse succeeds, with version 4
  pub is_uuid4 : String → Bool
  pub connectivity : Bool
  pub public_ip : String

-- What ResolveIPv4 reads of a request, parsed.
pub record Request : Type 0 where
  -- the remote address is an IPv4 address
  pub remote_is_ipv4 : Bool
  -- a local subnet contains it
  pub remote_is_local : Bool
  pub local_ip : String
  -- the Host header without its port, if that is an IPv4 address
  pub host_ip : Option String

pub record BattleServer : Type 0 where
  pub region : String
  pub name : String
  pub ipv4 : String
  pub bs_port : ℕ
  pub web_socket_port : ℕ
  pub out_of_band_port : ℕ
  -- a nil *bool is `none`
  pub lan : Option Bool
  pub has_oob_port : Bool
  pub battle_server_name : String

-- LAN: the answer, and the server with its cached flag
unfoldable pub is_lan : Network → BattleServer → Bool × BattleServer
is_lan net b = elim b.lan [
  | none ↦ let l = net.is_uuid4 b.region in (l, record b { lan = some l })
  | some l ↦ (l, b)
]

unfoldable pub set_lan : Bool → BattleServer → BattleServer
set_lan enable b = record b { lan = some enable }

unfoldable pub append_name : BattleServer → List Json → List Json
append_name b encoded =
    if eq_String b.battle_server_name "omit"
    then encoded
    else if eq_String b.battle_server_name "null"
    then encoded ++ null ∷ []
    else encoded ++ str b.name ∷ []

unfoldable pub encode_ports : BattleServer → List Json
encode_ports b =
    nat b.bs_port
    ∷ nat b.web_socket_port
    ∷ (if b.has_oob_port then nat b.out_of_band_port ∷ [] else [])

unfoldable pub resolve_ipv4 : Network → Request → BattleServer → String
resolve_ipv4 net r b =
    if eq_String b.ipv4 "auto"
    then (if r.remote_is_ipv4
        then (let use_local_ip = if net.connectivity then r.remote_is_local else true in
            if use_local_ip
            then r.local_ip
            else elim r.host_ip [ none ↦ net.public_ip | some host ↦ host ])
        else "")
    else b.ipv4

unfoldable pub encode_advertisement : Network → Request → BattleServer → List Json
unfolding resolve_ipv4 encode_ports
encode_advertisement net r b = str (resolve_ipv4 net r b) ∷ encode_ports b

unfoldable pub encode_login : Network → Request → BattleServer → List Json
unfolding resolve_ipv4 encode_ports append_name
encode_login net r b =
    (append_name b (str b.region ∷ []) ++ str (resolve_ipv4 net r b) ∷ []) ++ encode_ports b

pub record Opts : Type 0 where
  pub oob_port : Bool
  pub name : String

pub record BattleServers : Type 0 where
  pub store : OrderedMap.Base String BattleServer
  pub have_oob_port : Bool
  pub battle_server_name : String

-- the loop over the configured servers: the keys in order, and the mapping
fill :
    Opts → List BattleServer → GoMap String BattleServer → List String × GoMap String BattleServer
fill opts [] mapping = ([], mapping)
fill opts (b ∷ bs) mapping =
    let b' : BattleServer = record b {
      has_oob_port = opts.oob_port;
      battle_server_name = opts.name;
    } in
    let (ks, m) = fill opts bs (GoMap.set String_discrete mapping b.region b') in (b.region ∷ ks, m)

-- the defaults of Initialize
unfoldable pub or_default : Option Opts → Opts
or_default none = record { oob_port = true; name = "true" }
or_default (some o) = if eq_String o.name "" then record o { name = "true" } else o

unfoldable pub initialize : List BattleServer → Option Opts → BattleServers
unfolding fill or_default
initialize bs opts =
    let o = or_default opts in
    let (ks, m) = fill o bs GoMap.empty in
    record {
      store = OrderedMap.new_read_only ks m;
      have_oob_port = o.oob_port;
      battle_server_name = o.name;
    }

unfoldable pub get : BattleServers → String → Option BattleServer
get bs region = OrderedMap.read_only_load String_discrete bs.store region

unfoldable pub new_battle_server : BattleServers → String → BattleServer
new_battle_server bs region = record {
  region = region;
  name = "";
  ipv4 = "";
  bs_port = 0;
  web_socket_port = 0;
  out_of_band_port = 0;
  lan = none;
  has_oob_port = bs.have_oob_port;
  battle_server_name = bs.battle_server_name;
}

unfoldable pub new_lan_battle_server : BattleServers → String → BattleServer
unfolding new_battle_server set_lan
new_lan_battle_server bs region = set_lan true (new_battle_server bs region)

-- Encode; `zero_server` is what a missing key would read
unfoldable pub encode : Network → Request → BattleServer → BattleServers → List Json
unfolding encode_login
encode net r zero_server bs =
    map (λ b. array (encode_login net r b))
      (OrderedMap.read_only_values String_discrete zero_server bs.store)
