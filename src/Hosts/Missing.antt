-- ===== src/Hosts/Missing.antt =====
-- common/hosts/hosts.go: which hosts of the mappings missingIpMappings leaves to be written, and which of
-- them its lines still have.
use Prim.Native.String.{String}
use fragua_age.Prelude.{
  ◌≡◌, ◌≢◌, refl, ◌∙◌, ap, inl, inr, Bool, true, false, not, ◌&&◌, ◌||◌, Option, none, some, List,
  [], ◌∷◌, arith, test, Option-cases, Bool-cases, if◌then◌else◌,
}
use fragua_age.Prelude.Int.{String_discrete, eq_String}
use fragua_age.GoMap
use fragua_age.GoMap.{get-del}
use fragua_age.Hosts.{
  Platform, Ip, Host, Line, HostMappings, avoid, keep, scan_line, read_line, missing_ip_mappings,
}

abbrev pub has_host : Host → List Host → Bool
has_host h [] = false
has_host h (g ∷ gs) = test (String_discrete g h) || has_host h gs

-- The line gives a host its address.
abbrev pub gives : Platform → Ip → Host → Line → Bool
gives os wanted h l = elim l.ip [
  | none ↦ false
  | some ip ↦ os.ip_equal wanted ip && has_host h l.hosts
]

-- Some line of a file does.
abbrev pub given : Platform → Ip → Host → List String → Bool
given os wanted h [] = false
given os wanted h (text ∷ lines) = elim (read_line os text) [
  | none ↦ given os wanted h lines
  | some (over, l) ↦ gives os wanted h l || given os wanted h lines
]

abbrev pub unless_given : Bool → Option Ip → Option Ip
unless_given b m = if b then none else m

module _ (os : Platform) where
  avoid-none :
      (ip : Ip) (h : Host) (hosts : List Host) (mappings : HostMappings os)
      → GoMap.get String_discrete mappings h ≡ none
      → GoMap.get String_discrete (avoid os ip hosts mappings).1 h ≡ none
  unfolding avoid
  avoid-none ip h [] mappings e = e
  avoid-none ip h (g ∷ hosts) mappings e =
      elim (Option-cases (GoMap.get String_discrete mappings g)) [
        | inl n ↦ ground (arith, n, avoid-none ip h hosts mappings e)
        | inr (w, f) ↦ elim (Bool-cases (os.ip_equal w ip)) [
          | inl hit ↦
              let gone =
                avoid-none ip h hosts (GoMap.del String_discrete mappings g)
                  (get-del String_discrete mappings g h ∙ ground (arith, e)) in
              ground (arith, f, hit, gone)
          | inr miss ↦ ground (arith, f, miss, avoid-none ip h hosts mappings e)
        ]
      ]

  avoid-mappings :
      (ip : Ip) (h : Host) (wanted : Ip) (hosts : List Host) (mappings : HostMappings os)
      → GoMap.get String_discrete mappings h ≡ some wanted
      → GoMap.get String_discrete (avoid os ip hosts mappings).1 h
        ≡ unless_given (os.ip_equal wanted ip && has_host h hosts) (some wanted)
  unfolding avoid
  avoid-mappings ip h wanted [] mappings e = ground (arith, e)
  avoid-mappings ip h wanted (g ∷ hosts) mappings e = elim (String_discrete g h) [
    | yes same ↦
        let here = ap (GoMap.get String_discrete mappings) same ∙ e in
        elim (Bool-cases (os.ip_equal wanted ip)) [
          | inl hit ↦
              let gone =
                avoid-none ip h hosts (GoMap.del String_discrete mappings g)
                  (get-del String_discrete mappings g h ∙ ground (arith, same)) in
              ground (arith, here, hit, gone, same)
          | inr miss ↦ ground (arith, here, miss, avoid-mappings ip h wanted hosts mappings e)
        ]
    | no other ↦ elim (Option-cases (GoMap.get String_discrete mappings g)) [
      | inl n ↦ ground (arith, n, avoid-mappings ip h wanted hosts mappings e, other)
      | inr (w, f) ↦ elim (Bool-cases (os.ip_equal w ip)) [
        | inl hit ↦
            let still =
              avoid-mappings ip h wanted hosts (GoMap.del String_discrete mappings g)
                (get-del String_discrete mappings g h ∙ ground (arith, other, e)) in
            ground (arith, f, hit, still, other)
        | inr miss ↦ ground (arith, f, miss, avoid-mappings ip h wanted hosts mappings e, other)
      ]
    ]
  ]

  scan_line-mappings :
      (text : String) (over : Bool) (l : Line) (mappings : HostMappings os) (h : Host) (wanted : Ip)
      → GoMap.get String_discrete mappings h ≡ some wanted
      → GoMap.get String_discrete (scan_line os text over l mappings).1 h
        ≡ unless_given (gives os wanted h l) (some wanted)
  unfolding scan_line
  scan_line-mappings text over l mappings h wanted e = elim (Option-cases l.ip) [
    | inl n ↦ ground (arith, n, e)
    | inr (ip, f) ↦ ground (arith, f, avoid-mappings ip h wanted l.hosts mappings e)
  ]

  scan_line-none :
      (text : String) (over : Bool) (l : Line) (mappings : HostMappings os) (h : Host)
      → GoMap.get String_discrete mappings h ≡ none
      → GoMap.get String_discrete (scan_line os text over l mappings).1 h ≡ none
  unfolding scan_line
  scan_line-none text over l mappings h e = elim (Option-cases l.ip) [
    | inl n ↦ ground (arith, n, e)
    | inr (ip, f) ↦ ground (arith, f, avoid-none ip h l.hosts mappings e)
  ]

  missing-none :
      (lines : List String) (mappings : HostMappings os) (h : Host)
      → GoMap.get String_discrete mappings h ≡ none
      → GoMap.get String_discrete (missing_ip_mappings os lines mappings).1 h ≡ none
  unfolding missing_ip_mappings
  missing-none [] mappings h e = e
  missing-none (text ∷ lines) mappings h e = elim (Option-cases (read_line os text)) [
    | inl n ↦ ground (arith, n, missing-none lines mappings h e)
    | inr ((over, l), f) ↦ ground (
      arith,
      f,
      missing-none lines (scan_line os text over l mappings).1 h
          (scan_line-none text over l mappings h e),
    )
  ]

-- A host that the mappings give an address is still to be written after missingIpMappings, with this address, exactly
-- if no line of the file that can be read gives the host an equal address.
pub missing_ip_mappings-given :
    (os : Platform) (lines : List String) (mappings : HostMappings os) (h : Host) (wanted : Ip)
    → GoMap.get String_discrete mappings h ≡ some wanted
    → GoMap.get String_discrete (missing_ip_mappings os lines mappings).1 h
      ≡ unless_given (given os wanted h lines) (some wanted)
unfolding missing_ip_mappings
missing_ip_mappings-given os [] mappings h wanted e = e
missing_ip_mappings-given os (text ∷ lines) mappings h wanted e =
    elim (Option-cases (read_line os text)) [
      | inl n ↦ ground (arith, n, missing_ip_mappings-given os lines mappings h wanted e)
      | inr ((over, l), f) ↦
          let step = scan_line-mappings os text over l mappings h wanted e in
          let left = (scan_line os text over l mappings).1 in
          elim (Bool-cases (gives os wanted h l)) [
            | inl hit ↦
                ground (arith, f, hit, missing-none os lines left h (ground (arith, step, hit)))
            | inr miss ↦ ground (
              arith,
              f,
              miss,
              missing_ip_mappings-given os lines left h wanted (ground (arith, step, miss)),
            )
          ]
    ]

-- A host that is in a list exactly once.
abbrev pub once : Host → List Host → Bool
once h [] = false
once h (g ∷ gs) = if test (String_discrete g h) then not (has_host h gs) else once h gs

module _ (os : Platform) where
  keep-without :
      (h : Host) (hosts : List Host) (bs : List Bool)
      → has_host h hosts ≡ false
      → has_host h (keep os hosts bs) ≡ false
  unfolding keep
  keep-without h [] bs e = refl
  keep-without h (g ∷ hosts) [] e = refl
  keep-without h (g ∷ hosts) (b ∷ bs) e =
      let rest = keep-without h hosts bs (ground (arith, e)) in
      elim (Bool-cases (b || eq_String g os.hostname)) [
        | inl gone ↦ ground (arith, gone, rest)
        | inr kept ↦ ground (arith, kept, rest, e)
      ]

  keep-other :
      (h g : Host) (hosts : List Host) (b : Bool) (bs : List Bool)
      → g ≢ h
      → has_host h (keep os hosts bs) ≡ false
      → has_host h (keep os (g ∷ hosts) (b ∷ bs)) ≡ false
  unfolding keep
  keep-other h g hosts b bs other e = elim (Bool-cases (b || eq_String g os.hostname)) [
    | inl gone ↦ ground (arith, gone, e)
    | inr kept ↦ ground (arith, kept, e, other)
  ]

  once-has_host : (h : Host) (hosts : List Host) → once h hosts ≡ true → has_host h hosts ≡ true
  once-has_host h [] o = o
  once-has_host h (g ∷ hosts) o = elim (String_discrete g h) [
    | yes same ↦ ground (arith, same)
    | no other ↦ ground (arith, other, once-has_host h hosts (ground (arith, o, other)))
  ]

  avoid-drops :
      (ip : Ip) (h : Host) (wanted : Ip) (hosts : List Host) (mappings : HostMappings os)
      → GoMap.get String_discrete mappings h ≡ some wanted
      → os.ip_equal wanted ip ≡ true
      → once h hosts ≡ true
      → has_host h (keep os hosts (avoid os ip hosts mappings).0) ≡ false
  unfolding avoid keep
  avoid-drops ip h wanted [] mappings e hit o = refl
  avoid-drops ip h wanted (g ∷ hosts) mappings e hit o = elim (String_discrete g h) [
    | yes same ↦
        let here = ap (GoMap.get String_discrete mappings) same ∙ e in
        ground (
          arith,
          here,
          hit,
          keep-without h hosts (avoid os ip hosts (GoMap.del String_discrete mappings g)).0
              (ground (arith, o, same)),
        )
    | no other ↦
        let o' : once h hosts ≡ true = ground (arith, o, other) in
        let skipped = λ (m : HostMappings os) (b : Bool).
          keep-other h g hosts b (avoid os ip hosts m).0 other in
        elim (Option-cases (GoMap.get String_discrete mappings g)) [
          | inl n ↦
              ground
                (arith, n, skipped mappings false (avoid-drops ip h wanted hosts mappings e hit o'))
          | inr (w, f) ↦ elim (Bool-cases (os.ip_equal w ip)) [
            | inl taken ↦
                let m = GoMap.del String_discrete mappings g in
                let still : GoMap.get String_discrete m h ≡ some wanted =
                  get-del String_discrete mappings g h ∙ ground (arith, other, e) in
                ground
                  (arith, f, taken, skipped m true (avoid-drops ip h wanted hosts m still hit o'))
            | inr free ↦ ground (
              arith,
              f,
              free,
              skipped mappings false (avoid-drops ip h wanted hosts mappings e hit o'),
            )
          ]
        ]
  ]

  -- Where a line has a host of the mappings once, with the address that they give it, the host is not among the
  -- hosts of the line that are kept; and it is taken from the mappings too, so that it is not among those that
  -- are still to be written, whatever lines follow.
  pub avoid-loses :
      (ip : Ip) (h : Host) (wanted : Ip) (hosts : List Host) (mappings : HostMappings os)
      (lines : List String)
      → GoMap.get String_discrete mappings h ≡ some wanted
      → os.ip_equal wanted ip ≡ true
      → once h hosts ≡ true
      → (has_host h (keep os hosts (avoid os ip hosts mappings).0) ≡ false)
        × (GoMap.get String_discrete (avoid os ip hosts mappings).1 h ≡ none)
        × (GoMap.get String_discrete
              (missing_ip_mappings os lines (avoid os ip hosts mappings).1).1
              h
            ≡ none)
  avoid-loses ip h wanted hosts mappings lines e hit o =
      let gone : GoMap.get String_discrete (avoid os ip hosts mappings).1 h ≡ none =
        avoid-mappings os ip h wanted hosts mappings e
        ∙ ground (arith, hit, once-has_host h hosts o) in
      (
        avoid-drops ip h wanted hosts mappings e hit o,
        gone,
        missing-none os lines (avoid os ip hosts mappings).1 h gone,
      )
