-- ===== src/Domains.antt =====
-- common/domain.go: the hosts that a title's clients are redirected from, and the domains of the server's
-- certificates. strconv and the resolver are parameters.
pub mod Matching
pub mod Certificates
use Prim.Native.String.{String, ◌++◌ as ◌<>◌}
use fragua_age.Prelude.{
  ℕ, zero, suc, ◌+◌, Bool, true, false, ◌&&◌, Option, none, some, List, [], ◌∷◌, ◌++◌,
  if◌then◌else◌,
}
use fragua_age.Game.{Title, aoe1, aoe2, aoe3, aoe4, aom}

abbrev pub worlds_edge : String
worlds_edge = ".worldsedgelink"

abbrev pub dot_tld : String
dot_tld = ".com"

abbrev pub api_worlds_edge : String
api_worlds_edge = "-api" <> (worlds_edge <> dot_tld)

abbrev pub relic_domain : String
relic_domain = "aoe-api" <> ("." <> ("reliclink" <> dot_tld))

abbrev pub age_of_empires : String
age_of_empires = "." <> ("ageofempires" <> dot_tld)

abbrev pub play_fab_suffix : String
play_fab_suffix = "." <> ("playfabapi" <> dot_tld)

-- SelfSignedCertDomains
abbrev pub self_signed_cert_domains : List String
self_signed_cert_domains =
    relic_domain ∷ ("*" <> (worlds_edge <> dot_tld)) ∷ ("*" <> age_of_empires) ∷ []

unfoldable pub cert_domains : List String
cert_domains = ("*" <> play_fab_suffix) ∷ self_signed_cert_domains

-- SelfSignedCertGame
abbrev pub self_signed_cert_game : Title → Bool
self_signed_cert_game aoe4 = false
self_signed_cert_game aom = false
self_signed_cert_game _ = true

-- generatedDomainsCache
abbrev pub Cache : Type 0
Cache = Title → Option (List String)

-- What generateDomains knows of a title.
pub record Releases : Type 0 where
  pub prefix : String
  pub release_min : ℕ
  pub part : String

abbrev pub releases_of : Title → Option Releases
releases_of aoe2 = some (record { prefix = "pb"; release_min = 2; part = "-live-release" })
releases_of aoe4 = some (record { prefix = "dr"; release_min = 2; part = "-activerelease" })
releases_of aom = some (record { prefix = "andromeda"; release_min = 20; part = "-live-release" })
releases_of _ = none

same_title : Title → Title → Bool
same_title aoe1 aoe1 = true
same_title aoe2 aoe2 = true
same_title aoe3 aoe3 = true
same_title aoe4 aoe4 = true
same_title aom aom = true
same_title _ _ = false

module _ (itoa : ℕ → String) (resolves : String → Bool) where
  -- generateDomainName
  unfoldable pub generate_domain_name : Releases → ℕ → String
  generate_domain_name r release = r.prefix <> (r.part <> (itoa release <> api_worlds_edge))

  -- `count` releases from one on
  known_domains : Releases → ℕ → ℕ → List String
  unfolding generate_domain_name
  known_domains r zero release = []
  known_domains r (suc count) release =
      generate_domain_name r release ∷ known_domains r count (suc release)

  -- The loop that ends at the first release that does not resolve: `none` if that takes more than `fuel`
  -- rounds.
  resolved_domains : ℕ → Releases → ℕ → Option (List String)
  unfolding generate_domain_name
  resolved_domains zero r release = none
  resolved_domains (suc fuel) r release =
      let rest = resolved_domains fuel r (suc release) in
      if resolves (generate_domain_name r release)
      then elim rest [ none ↦ none | some ds ↦ some (generate_domain_name r release ∷ ds) ]
      else some []

  cached : Title → Cache → List String → Option (List String) → Option (List String × Cache)
  unfolding same_title
  cached title cache known none = none
  cached title cache known (some more) =
      let ds = known ++ more in some (ds, λ t. if same_title title t then some ds else cache t)

  -- generateDomains
  unfoldable pub generate_domains : ℕ → Title → Cache → Option (List String × Cache)
  unfolding known_domains resolved_domains cached
  generate_domains fuel title cache = elim (cache title) [
    | some ds ↦ some (ds, cache)
    | none ↦ elim (releases_of title) [
      | none ↦ some ([], cache)
      | some r ↦
          cached title cache (known_domains r r.release_min 1)
            (resolved_domains fuel r (r.release_min + 1))
    ]
  ]

  -- The case of AoE4 falls through to the next, which assigns the list anew.
  own_hosts : Title → Bool → List String
  own_hosts aom mac = ("athens-live" <> api_worlds_edge) ∷ []
  own_hosts aoe2 true =
      relic_domain
      ∷ ("aoe-api" <> (worlds_edge <> dot_tld))
      ∷ ("arthurlive" <> api_worlds_edge)
      ∷ []
  own_hosts _ mac = relic_domain ∷ ("aoe-api" <> (worlds_edge <> dot_tld)) ∷ []

  -- the rest of AllHosts
  more_hosts : Title → List String
  more_hosts aom =
      ("c15f9" <> play_fab_suffix) ∷ ("cdn" <> age_of_empires) ∷ ("api" <> age_of_empires) ∷ []
  more_hosts aoe4 =
      ("ed603" <> play_fab_suffix) ∷ ("cdn" <> age_of_empires) ∷ ("api-dr" <> age_of_empires) ∷ []
  more_hosts _ = ("cdn" <> age_of_empires) ∷ ("api" <> age_of_empires) ∷ []

  -- GameHosts
  unfoldable pub game_hosts : ℕ → Title → Bool → Cache → Option (List String × Cache)
  unfolding generate_domains own_hosts
  game_hosts fuel title mac cache = elim (generate_domains fuel title cache) [
    | none ↦ none
    | some (ds, cache') ↦ some (own_hosts title mac ++ ds, cache')
  ]

  -- AllHosts
  unfoldable pub all_hosts : ℕ → Title → Bool → Cache → Option (List String × Cache)
  unfolding game_hosts more_hosts
  all_hosts fuel title mac cache = elim (game_hosts fuel title mac cache) [
    | none ↦ none
    | some (ds, cache') ↦ some (ds ++ more_hosts title, cache')
  ]
