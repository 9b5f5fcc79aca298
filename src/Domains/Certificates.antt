-- ===== src/Domains/Certificates.antt =====
-- common/domain.go: the certificates cover every host that is redirected.
use Prim.Native.String.{String, ◌++◌ as ◌<>◌}
use fragua_age.Prelude.{
  ℕ, zero, suc, ◌+◌, ◌<◌, ◌∙◌, ap, not, if◌then◌else◌, ◌≡◌, refl, subst, inl, inr, Bool, true,
  false, none, some, List, [], ◌∷◌, ◌++◌, All, arith, Option-cases, Bool-cases,
}
use fragua_age.Game.{Title, aoe1, aoe2, aoe3, aoe4, aom}
use fragua_age.Domains.Matching.{
  all_chars, is_label, covered, certificate_of, Matching, IsCovered, by_edge, by_ages, by_relic,
  generated-IsCovered,
}
use fragua_age.Domains.{
  Cache, Releases, same_title, releases_of, cert_domains, generate_domain_name, known_domains,
  resolved_domains, cached, generate_domains, own_hosts, more_hosts, game_hosts, all_hosts,
}

-- The release that is `k` after the first that is looked up does not resolve, if the title has releases.
abbrev pub unresolved : (ℕ → String) → (String → Bool) → Title → ℕ → Bool
unresolved itoa resolves title k = elim (releases_of title) [
  | none ↦ true
  | some r ↦ not (resolves (generate_domain_name itoa resolves r (r.release_min + 1 + k)))
]

module _ (matches : String → String → Bool) (m : Matching matches) where
  -- Every host of a list is covered by the certificate of a title.
  AllCovered : Title → List String → Type 0
  AllCovered title = All (λ host. covered matches (certificate_of title) host ≡ true)

  AllCovered-append :
      (title : Title) (hs hs' : List String)
      → AllCovered title hs
      → AllCovered title hs'
      → AllCovered title (hs ++ hs')
  unfolding AllCovered
  AllCovered-append title [] hs' h h' = h'
  AllCovered-append title (x ∷ hs) hs' h h' = (h.0, AllCovered-append title hs hs' h.1 h')

  lifted :
      (title : Title) (host : String)
      → IsCovered matches m host
      → covered matches (certificate_of title) host ≡ true
  unfolding cert_domains
  lifted aoe1 host h = h
  lifted aoe2 host h = h
  lifted aoe3 host h = h
  lifted aoe4 host h = ground (arith, h)
  lifted aom host h = ground (arith, h)

  by_play_fab :
      (label : String)
      → is_label label ≡ true
      → covered matches cert_domains (label <> ".playfabapi.com") ≡ true
  unfolding cert_domains
  by_play_fab label h = ground (arith, m.wildcard label "playfabapi.com" h refl)

  module _ (itoa : ℕ → String) (resolves : String → Bool)
      (digits : (n : ℕ) → is_label (itoa n) ≡ true) where
    named :
        (title : Title) (r r' : Releases) (n : ℕ)
        → some r ≡ some r'
        → is_label r.prefix ≡ true
        → all_chars r.part ≡ true
        → IsCovered matches m (generate_domain_name itoa resolves r' n)
    named title r r' n e p q =
        let same : r ≡ r' = ground (arith, e) in
        subst (λ x. IsCovered matches m (generate_domain_name itoa resolves x n)) same
          (generated-IsCovered matches m itoa resolves r n p q (digits n))

    releases-IsCovered :
        (title : Title) (r : Releases) (n : ℕ)
        → releases_of title ≡ some r
        → IsCovered matches m (generate_domain_name itoa resolves r n)
    releases-IsCovered aoe1 r n e = absurd (ground (arith, e))
    releases-IsCovered aoe2 r n e = named aoe2 _ r n e refl refl
    releases-IsCovered aoe3 r n e = absurd (ground (arith, e))
    releases-IsCovered aoe4 r n e = named aoe4 _ r n e refl refl
    releases-IsCovered aom r n e = named aom _ r n e refl refl

    known-AllCovered :
        (title : Title) (r : Releases) (count n : ℕ)
        → releases_of title ≡ some r
        → AllCovered title (known_domains itoa resolves r count n)
    unfolding known_domains AllCovered
    known-AllCovered title r zero n e = tt
    known-AllCovered title r (suc count) n e =
        (lifted title _ (releases-IsCovered title r n e), known-AllCovered title r count (suc n) e)

    -- The releases that the loop finds, if one of the first `fuel` does not resolve.
    resolved-AllCovered :
        (fuel k : ℕ) (title : Title) (r : Releases) (n : ℕ)
        → releases_of title ≡ some r
        → k < fuel
        → resolves (generate_domain_name itoa resolves r (n + k)) ≡ false
        → (ds : List String) × (resolved_domains itoa resolves fuel r n ≡ some ds)
          × AllCovered title ds
    unfolding resolved_domains AllCovered
    resolved-AllCovered zero k title r n e h last = absurd (omega (arith, h))
    resolved-AllCovered (suc fuel) zero title r n e h last =
        let here : resolves (generate_domain_name itoa resolves r n) ≡ false =
          ap (λ x. resolves (generate_domain_name itoa resolves r x)) (omega arith) ∙ last in
        ([], ground (arith, here), tt)
    resolved-AllCovered (suc fuel) (suc k) title r n e h last =
        let later : resolves (generate_domain_name itoa resolves r (suc n + k)) ≡ false =
          ap (λ x. resolves (generate_domain_name itoa resolves r x)) (omega arith) ∙ last in
        let (ds, run, all) =
          resolved-AllCovered fuel k title r (suc n) e (omega (arith, h)) later in
        elim (Bool-cases (resolves (generate_domain_name itoa resolves r n))) [
          | inr here ↦ ([], ground (arith, here), tt)
          | inl hit ↦ (
            generate_domain_name itoa resolves r n ∷ ds,
            ground (arith, hit, run),
            (lifted title _ (releases-IsCovered title r n e), all),
          )
        ]

    generated-AllCovered :
        (fuel k : ℕ) (title : Title) (cache : Cache)
        → cache title ≡ none
        → k < fuel
        → unresolved itoa resolves title k ≡ true
        → (ds : List String) × (cache' : Cache) × (generate_domains itoa resolves fuel title cache
            ≡ some (ds, cache'))
          × AllCovered title ds
    unfolding generate_domains cached AllCovered
    generated-AllCovered fuel k title cache c h last = elim (Option-cases (releases_of title)) [
      | inl n ↦ ([], cache, ground (arith, c, n), tt)
      | inr (r, e) ↦
          let known = known_domains itoa resolves r r.release_min 1 in
          let (more, run, all) =
            resolved-AllCovered fuel k title r (r.release_min + 1) e h (ground (arith, e, last)) in
          (
            known ++ more,
            (λ t. if same_title title t then some (known ++ more) else cache t),
            ground (arith, c, e, run),
            AllCovered-append title known more (known-AllCovered title r r.release_min 1 e) all,
          )
    ]

    own-AllCovered :
        (title : Title) (mac : Bool) → AllCovered title (own_hosts itoa resolves title mac)
    unfolding own_hosts AllCovered
    own-AllCovered aoe1 mac = (by_relic matches m, (by_edge matches m "aoe-api" refl, tt))
    own-AllCovered aoe2 false = (by_relic matches m, (by_edge matches m "aoe-api" refl, tt))
    own-AllCovered aoe2 true = (
      by_relic matches m,
      (by_edge matches m "aoe-api" refl, (by_edge matches m "arthurlive-api" refl, tt)),
    )
    own-AllCovered aoe3 mac = (by_relic matches m, (by_edge matches m "aoe-api" refl, tt))
    own-AllCovered aoe4 mac =
        (lifted aoe4 _ (by_relic matches m), (lifted aoe4 _ (by_edge matches m "aoe-api" refl), tt))
    own-AllCovered aom mac = (lifted aom _ (by_edge matches m "athens-live-api" refl), tt)

    more-AllCovered : (title : Title) → AllCovered title (more_hosts itoa resolves title)
    unfolding more_hosts AllCovered
    more-AllCovered aoe1 = (by_ages matches m "cdn" refl, (by_ages matches m "api" refl, tt))
    more-AllCovered aoe2 = (by_ages matches m "cdn" refl, (by_ages matches m "api" refl, tt))
    more-AllCovered aoe3 = (by_ages matches m "cdn" refl, (by_ages matches m "api" refl, tt))
    more-AllCovered aoe4 = (
      by_play_fab "ed603" refl,
      (
        lifted aoe4 _ (by_ages matches m "cdn" refl),
        (lifted aoe4 _ (by_ages matches m "api-dr" refl), tt),
      ),
    )
    more-AllCovered aom = (
      by_play_fab "c15f9" refl,
      (
        lifted aom _ (by_ages matches m "cdn" refl),
        (lifted aom _ (by_ages matches m "api" refl), tt),
      ),
    )

-- Where numbers are written as labels, a certificate matches a host as Matching says, and one of the first
-- `fuel` releases that generateDomains looks up does not resolve, if the title has releases: AllHosts returns
-- within `fuel` rounds of the loop, and every host that it lists for a title, with none of the title in the
-- cache, is covered by the domains of its certificate: the self-signed one for AoE1, AoE2 and AoE3, and the
-- other for AoE4 and AoM.
pub all_hosts-covered :
    (matches : String → String → Bool) (itoa : ℕ → String) (resolves : String → Bool) (fuel k : ℕ)
    (title : Title) (mac : Bool) (cache : Cache)
    → Matching matches
    → ((n : ℕ) → is_label (itoa n) ≡ true)
    → cache title ≡ none
    → k < fuel
    → unresolved itoa resolves title k ≡ true
    → (hs : List String) × (cache' : Cache) × (all_hosts itoa resolves fuel title mac cache
        ≡ some (hs, cache'))
      × All (λ host. covered matches (certificate_of title) host ≡ true) hs
unfolding all_hosts game_hosts AllCovered
all_hosts-covered matches itoa resolves fuel k title mac cache m digits c h last =
    let (ds, cache', run, all) =
      generated-AllCovered matches m itoa resolves digits fuel k title cache c h last in
    let own = own_hosts itoa resolves title mac in
    (
      (own ++ ds) ++ more_hosts itoa resolves title,
      cache',
      ground (arith, run),
      AllCovered-append matches m title (own ++ ds) _
          (AllCovered-append matches m title own ds
            (own-AllCovered matches m itoa resolves digits title mac) all)
          (more-AllCovered matches m itoa resolves digits title),
    )
