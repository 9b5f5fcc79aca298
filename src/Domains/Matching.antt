-- ===== src/Domains/Matching.antt =====
-- common/domain.go: how a certificate matches a host, and the hosts of the title's API.
use Prim.Native.Char.{Char, code}
use Prim.Native.String.{String, ◌++◌ as ◌<>◌}
use Prim.Native.String.append
use text.Mathlib.TextLemmas.{append_assoc as text_assoc}
use fragua_age.Prelude.{
  ℕ, ◌≡◌, refl, ◌∙◌, ap, subst, Bool, true, false, not, ◌&&◌, ◌||◌, ◌==◌, List, [], ◌∷◌, arith,
  if◌then◌else◌, leb,
}
use fragua_age.Game.{Title}
use fragua_age.Domains.{
  Releases, api_worlds_edge, self_signed_cert_domains, cert_domains, self_signed_cert_game,
  generate_domain_name,
}

-- A letter, a digit or a hyphen.
abbrev pub is_char : Char → Bool
is_char c =
    (leb 97 (code c) && leb (code c) 122)
    || ((leb 48 (code c) && leb (code c) 57) || (code c == 45))

abbrev pub all_chars : String → Bool
all_chars String.[] = true
all_chars (String.◌∷◌ c s) = is_char c && all_chars s

-- One label of a domain: of lower case letters, digits and hyphens, the first of them no hyphen.
abbrev pub is_label : String → Bool
is_label String.[] = false
is_label (String.◌∷◌ c s) = (is_char c && not (code c == 45)) && all_chars s

-- Labels with dots between them; `start`: at the first character of a label.
abbrev pub is_name_from : Bool → String → Bool
is_name_from start String.[] = not start
is_name_from start (String.◌∷◌ c s) =
    if code c == 46
    then not start && is_name_from true s
    else (is_char c && not (start && (code c == 45))) && is_name_from false s

abbrev pub is_name : String → Bool
is_name s = is_name_from true s

all_chars-append :
    (s t : String) → all_chars s ≡ true → all_chars t ≡ true → all_chars (s <> t) ≡ true
all_chars-append String.[] t h h' = ap all_chars (λ i. append.nil t i) ∙ h'
all_chars-append (String.◌∷◌ c s) t h h' =
    ap all_chars (λ i. append.cons c s t i)
    ∙ ground (arith, h, all_chars-append s t (ground (arith, h)) h')

is_label-append : (s t : String) → is_label s ≡ true → all_chars t ≡ true → is_label (s <> t) ≡ true
is_label-append String.[] t h h' = absurd (ground (arith, h))
is_label-append (String.◌∷◌ c s) t h h' =
    ap is_label (λ i. append.cons c s t i)
    ∙ ground (arith, h, all_chars-append s t (ground (arith, h)) h')

pub is_label-all_chars : (s : String) → is_label s ≡ true → all_chars s ≡ true
is_label-all_chars String.[] h = refl
is_label-all_chars (String.◌∷◌ c s) h = ground (arith, h)

-- Some domain of a certificate matches the host.
abbrev pub covered : (String → String → Bool) → List String → String → Bool
covered matches [] host = false
covered matches (d ∷ ds) host = matches d host || covered matches ds host

-- The domains of the certificate that a title's clients are shown.
abbrev pub certificate_of : Title → List String
certificate_of title =
    if self_signed_cert_game title then self_signed_cert_domains else cert_domains

-- How crypto/x509 matches a host, of names in lower case: a domain without a wildcard matches itself, and
-- one with a wildcard in front matches any label in its place.
pub record Matching (matches : String → String → Bool) : Type 0 where
  pub exact : (host : String) → is_name host ≡ true → matches host host ≡ true
  pub wildcard :
      (label rest : String)
      → is_label label ≡ true
      → is_name rest ≡ true
      → matches ("*" <> ("." <> rest)) (label <> ("." <> rest)) ≡ true

module _ (matches : String → String → Bool) (m : Matching matches) where
  abbrev pub IsCovered : String → Type 0
  IsCovered host = covered matches self_signed_cert_domains host ≡ true

  pub by_edge :
      (label : String) → is_label label ≡ true → IsCovered (label <> ".worldsedgelink.com")
  by_edge label h = ground (arith, m.wildcard label "worldsedgelink.com" h refl)

  pub by_ages : (label : String) → is_label label ≡ true → IsCovered (label <> ".ageofempires.com")
  by_ages label h = ground (arith, m.wildcard label "ageofempires.com" h refl)

  pub by_relic : IsCovered "aoe-api.reliclink.com"
  by_relic = ground (arith, m.exact "aoe-api.reliclink.com" refl)

  pub generated-IsCovered :
      (itoa : ℕ → String) (resolves : String → Bool) (r : Releases) (n : ℕ)
      → is_label r.prefix ≡ true
      → all_chars r.part ≡ true
      → is_label (itoa n) ≡ true
      → IsCovered (generate_domain_name itoa resolves r n)
  unfolding generate_domain_name
  generated-IsCovered itoa resolves r n p q d =
      let tail = all_chars-append (itoa n) "-api" (is_label-all_chars (itoa n) d) refl in
      let label =
        is_label-append r.prefix (r.part <> (itoa n <> "-api")) p
          (all_chars-append r.part (itoa n <> "-api") q tail) in
      let same : (r.prefix <> (r.part <> (itoa n <> "-api"))) <> ".worldsedgelink.com"
          ≡ r.prefix <> (r.part <> (itoa n <> api_worlds_edge)) =
        text_assoc r.prefix (r.part <> (itoa n <> "-api")) ".worldsedgelink.com"
        ∙ ap (◌<>◌ r.prefix) (
            text_assoc r.part (itoa n <> "-api") ".worldsedgelink.com"
            ∙ ap (◌<>◌ r.part) (text_assoc (itoa n) "-api" ".worldsedgelink.com")) in
      subst IsCovered same (by_edge (r.prefix <> (r.part <> (itoa n <> "-api"))) label)
