-- ===== src/Tests/Domains.antt =====
-- The theorem on the certificates at a concrete input.
use Prim.Native.Char.{code}
use Prim.Native.String.{String, ◌++◌ as ◌<>◌}
use Prim.Native.String.append
use fragua_age.Prelude.{
  ◌≡◌, refl, sym, ◌∙◌, ◌&&◌, if◌then◌else◌, ap, Bool, true, false, ◌||◌, ◌==◌, none, some, List,
  All, arith,
}
use fragua_age.Prelude.Int.{String_discrete, eq_String}
use fragua_age.Game.{aoe4}
use fragua_age.Domains.{Cache, all_hosts}
use fragua_age.Domains.Matching.{all_chars, is_label-all_chars, Matching, covered, certificate_of}
use fragua_age.Domains.Certificates.{all_hosts-covered}

abbrev tail : String → String
tail String.[] = ""
tail (String.◌∷◌ c s) = s

-- What follows the first label, from its dot on.
abbrev after_label : String → String
after_label String.[] = ""
after_label (String.◌∷◌ c s) = if code c == 46 then String.◌∷◌ c s else after_label s

abbrev is_wild : String → Bool
is_wild String.[] = false
is_wild (String.◌∷◌ c s) = code c == 42

-- A wildcard matches any first label.
abbrev matches : String → String → Bool
matches d host = eq_String d host || (is_wild d && eq_String (tail d) (after_label host))

eq_String-same : (s : String) → eq_String s s ≡ true
eq_String-same s = elim (String_discrete s s) [ yes e ↦ ground (arith, e) | no n ↦ absurd (n refl) ]

after_all_chars :
    (s rest : String) → all_chars s ≡ true → after_label (s <> ("." <> rest)) ≡ "." <> rest
after_all_chars String.[] rest h =
    ap after_label (λ i. append.nil ("." <> rest) i)
    ∙ ap after_label (append.cons "." "" rest)
    ∙ sym (append.cons "." "" rest)
after_all_chars (String.◌∷◌ c s) rest h =
    ap after_label (λ i. append.cons c s ("." <> rest) i)
    ∙ ground (arith, h, after_all_chars s rest (ground (arith, h)))

matches-Matching : Matching matches
matches-Matching = record {
  exact = λ host h. ground (arith, eq_String-same host);
  wildcard = λ label rest h h'.
      let dotted = "." <> rest in
      let behind : tail ("*" <> dotted) ≡ dotted =
        ap tail (append.cons "*" "" dotted) ∙ ap (λ x. x) (append.nil dotted) in
      let same : eq_String (tail ("*" <> dotted)) (after_label (label <> dotted)) ≡ true =
        ap (λ x. eq_String x (after_label (label <> dotted))) behind
        ∙ ap (eq_String dotted) (after_all_chars label rest (is_label-all_chars label h))
        ∙ eq_String-same dotted in
      ground (arith, ap is_wild (append.cons "*" "" dotted), same);
}

-- The release after the first that is looked up does not resolve.
abbrev resolves : String → Bool
resolves d = false

all_hosts-covered_example :
    (hs : List String) × (cache' : Cache) × (all_hosts (λ n. "7") resolves 1 aoe4 false (λ t. none)
      ≡ some (hs, cache'))
    × All (λ host. covered matches (certificate_of aoe4) host ≡ true) hs
all_hosts-covered_example =
    all_hosts-covered matches (λ n. "7") resolves 1 0 aoe4 false (λ t. none) matches-Matching
      (λ n. refl) refl (omega arith) refl
