-- ===== src/Hosts.antt =====
-- common/hosts: line.go, parser.go, parser_nonDarwin.go, host.go, mappings.go and, of hosts.go,
-- commentLineStr, missingIpMappings and what AddHosts writes. The strings package, net,
-- idna and the name of the machine are parameters; the files are lists of lines.
pub mod Missing
use Prim.Native.String.{String, ◌++◌ as ◌<>◌, len as text_length}
use fragua_age.Prelude.{
  ℕ, zero, suc, ◌-◌, Bool, true, false, not, ◌&&◌, ◌||◌, ◌==◌, Option, none, some, List, [], ◌∷◌,
  ◌++◌, map, length, take, ltb, is_some, if◌then◌else◌,
}
use fragua_age.Prelude.Int.{String_discrete, eq_String}
use fragua_age.GoMap
use fragua_age.GoMap.{GoMap}

-- An address is the text of its bytes; a host is its Unicode form.
abbrev pub Ip : Type 0
Ip = String

abbrev pub Host : Type 0
Host = String

-- What the code takes from libraries and from its platform.
pub record Platform : Type 0 where
  -- `len` of a string, and the slice of its first bytes
  pub byte_len : String → ℕ
  pub cut : String → ℕ → String
  -- strings.Fields, strings.Split by "#" and strings.SplitN by "#" into at most 2 parts: the part before
  -- the first "#" and, if there is one, the rest
  pub fields : String → List String
  pub split_marker : String → List String
  pub split_line : String → String × Option String
  pub parse_ip : String → Option Ip
  pub ip_string : Ip → String
  pub ip_equal : Ip → Ip → Bool
  -- idna.Lookup
  pub to_unicode : String → Option String
  pub to_ascii : String → String
  pub max_chars_per_line : ℕ
  pub max_hosts_per_line : ℕ
  pub line_ending : String
  -- hostname
  pub hostname : Host

-- Line
pub record Line : Type 0 where
  pub ip : Option Ip
  pub hosts : List Host
  pub comments : List String

abbrev pub marking : String
marking = "ageLANServer"

unfoldable pub only_comments : Line → Bool
only_comments l = not (is_some l.ip) && (length l.hosts == 0)

last_is : String → List String → Bool
last_is s [] = false
last_is s (c ∷ []) = eq_String c s
last_is s (c ∷ (d ∷ cs)) = last_is s (d ∷ cs)

-- Own, which hasOwnMarking repeats
unfoldable pub own : Line → Bool
unfolding last_is
own l = last_is marking l.comments

unfoldable pub with_own_marking : Line → Line
unfolding own
with_own_marking l = if own l then l else record l { comments = l.comments ++ marking ∷ [] }

without_last : List String → List String
without_last [] = []
without_last (c ∷ []) = []
without_last (c ∷ (d ∷ cs)) = c ∷ without_last (d ∷ cs)

unfoldable pub without_own_marking : Line → Line
unfolding own without_last
without_own_marking l = if own l then record l { comments = without_last l.comments } else l

-- strings.Join
join : String → List String → String
join separator [] = ""
join separator (s ∷ []) = s
join separator (s ∷ (t ∷ ss)) = s <> (separator <> join separator (t ∷ ss))

module _ (os : Platform) where
  host_part : Line → String
  unfolding join
  host_part l = elim l.ip [
    | none ↦ ""
    | some ip ↦ os.ip_string ip <> ("\t" <> join " " (map os.to_ascii l.hosts))
  ]

  -- Line.String
  unfoldable pub line_string : Line → String
  unfolding host_part join
  line_string l =
      if length l.comments == 0
      then host_part l
      else host_part l
        <> ((if text_length (host_part l) == 0 then "" else " ") <> ("#" <> join "#" l.comments))

  -- parseHost
  unfoldable pub parse_host : String → Option Host
  parse_host host = elim (os.to_unicode host) [
    | none ↦ none
    | some decoded ↦ if is_some (os.parse_ip decoded) then none else some decoded
  ]

  parse_hosts : List String → List Host
  unfolding parse_host
  parse_hosts [] = []
  parse_hosts (h ∷ hs) =
      let rest = parse_hosts hs in elim (parse_host h) [ none ↦ rest | some host ↦ host ∷ rest ]

  -- The results of ParseLine.
  pub record Parsed : Type 0 where
    pub ok : Bool
    pub over_limit : Bool
    pub line : Line

  comments_of : Option String → List String
  comments_of none = []
  comments_of (some rest) = os.split_marker rest

  parse_fields : Bool → Bool → List String → List String → Parsed
  unfolding parse_hosts
  parse_fields ignore over comments (first ∷ (second ∷ hosts)) = elim (os.parse_ip first) [
    | none ↦ record {
      ok = false;
      over_limit = over;
      line = record { ip = none; hosts = []; comments = comments };
    }
    | some ip ↦
        let names = second ∷ hosts in
        let max_hosts = if ignore then length names else os.max_hosts_per_line in
        let parsed = parse_hosts (take max_hosts names) in
        record {
          ok = not (length parsed == 0);
          over_limit = over || ltb max_hosts (length names);
          line = record { ip = some ip; hosts = parsed; comments = comments };
        }
  ]
  parse_fields ignore over comments _ = record {
    ok = false;
    over_limit = over;
    line = record { ip = none; hosts = []; comments = comments };
  }

  parse_split : Bool → Bool → String × Option String → Parsed
  unfolding comments_of parse_fields
  parse_split ignore over (before, rest) =
      if text_length before == 0
      then record {
        ok = true;
        over_limit = over;
        line = record { ip = none; hosts = []; comments = comments_of rest };
      }
      else parse_fields ignore over (comments_of rest) (os.fields before)

  -- ParseLine
  unfoldable pub parse_line : String → Bool → Parsed
  unfolding parse_split
  parse_line line ignore_limit =
      let max_chars =
        if ignore_limit
        then os.byte_len line
        else os.max_chars_per_line - os.byte_len os.line_ending in
      if ltb max_chars (os.byte_len line)
      then parse_split ignore_limit true (os.split_line (os.cut line max_chars))
      else parse_split ignore_limit false (os.split_line line)

  -- Commented: whether it succeeds, and the line
  unfoldable pub commented : Line → Bool × Line
  unfolding only_comments line_string parse_line
  commented l =
      let p = parse_line ("#" <> line_string l) true in
      if only_comments l then (true, l) else (p.ok, p.line)

  -- Uncommented, of a line with a comment or with hosts
  unfoldable pub uncommented : Line → Option String
  unfolding only_comments line_string join
  uncommented l =
      if only_comments l
      then elim l.comments [ [] ↦ none | c ∷ cs ↦ some (join "#" (c ∷ cs)) ]
      else some (line_string l)

  marked : Bool × Line → Bool × Line
  unfolding with_own_marking
  marked (true, l) = (true, with_own_marking l)
  marked (false, l) = (false, l)

  -- commentLineStr
  unfoldable pub comment_line_str : String → Bool × Line
  unfolding parse_line commented marked
  comment_line_str line =
      let p = parse_line ("#" <> line) true in
      if p.ok then marked (commented p.line) else (false, p.line)

  -- HostMappings
  abbrev pub HostMappings : Type 0
  HostMappings = GoMap Host Ip

  -- The first loop over the hosts of a line: which of them the mappings give this address, and what is
  -- left of the mappings.
  unfoldable pub avoid : Ip → List Host → HostMappings → List Bool × HostMappings
  avoid ip [] mappings = ([], mappings)
  avoid ip (host ∷ hosts) mappings = elim (GoMap.get String_discrete mappings host) [
    | none ↦ let (bs, left) = avoid ip hosts mappings in (false ∷ bs, left)
    | some wanted ↦
        if os.ip_equal wanted ip
        then (let (bs, left) = avoid ip hosts (GoMap.del String_discrete mappings host) in
            (true ∷ bs, left))
        else (let (bs, left) = avoid ip hosts mappings in (false ∷ bs, left))
  ]

  -- commentHost
  abbrev pub comment_host : Host → Bool
  comment_host host = eq_String host os.hostname

  -- The second loop: the hosts that are kept.
  unfoldable pub keep : List Host → List Bool → List Host
  keep (host ∷ hosts) (b ∷ bs) =
      let rest = keep hosts bs in if b || comment_host host then rest else host ∷ rest
  keep _ _ = []

  kept_line : Ip → List Host → Bool → List Line
  unfolding with_own_marking
  kept_line ip [] removed = []
  kept_line ip (h ∷ hosts) removed =
      let nl : Line = record { ip = some ip; hosts = h ∷ hosts; comments = [] } in
      (if removed then with_own_marking nl else nl) ∷ []

  commented_lines : Bool × Line → List Line
  unfolding with_own_marking
  commented_lines (true, nl) = with_own_marking nl ∷ []
  commented_lines (false, nl) = []

  rest_of : Ip → List Host → Bool × Line → List Line
  unfolding commented commented_lines kept_line
  rest_of ip kept (removed, l) =
      (if removed then commented_lines (commented l) else []) ++ kept_line ip kept removed

  -- The end of a round: a line over the limit is replaced by its comment.
  rest_lines : String → Bool → Line → Ip → List Host → List Line
  unfolding comment_line_str rest_of
  rest_lines text over l ip kept =
      let removed = ltb (length kept) (length l.hosts) in
      let whole = comment_line_str text in
      rest_of ip kept (if over then (removed || whole.0, whole.1) else (removed, l))

  -- What one line leaves: the lines to write, and the mappings that are still missing. A line without an
  -- address has only comments.
  unfoldable pub scan_line : String → Bool → Line → HostMappings → List Line × HostMappings
  unfolding avoid keep rest_lines
  scan_line text over l mappings = elim l.ip [
    | none ↦ (l ∷ [], mappings)
    | some ip ↦
        let (bs, left) = avoid ip l.hosts mappings in
        (rest_lines text over l ip (keep l.hosts bs), left)
  ]

  -- the line as it is parsed, or else as a comment
  unfoldable pub read_line : String → Option (Bool × Line)
  unfolding parse_line comment_line_str
  read_line text =
      let p = parse_line text false in
      let whole = comment_line_str text in
      if p.ok
      then some (p.over_limit, p.line)
      else if whole.0
      then some (p.over_limit, whole.1)
      else none

  -- missingIpMappings
  unfoldable pub missing_ip_mappings : List String → HostMappings → List Line × HostMappings
  unfolding scan_line read_line
  missing_ip_mappings [] mappings = ([], mappings)
  missing_ip_mappings (text ∷ lines) mappings = elim (read_line text) [
    | none ↦ missing_ip_mappings lines mappings
    | some (over, l) ↦
        let (ls, left) = scan_line text over l mappings in
        let (ls', left') = missing_ip_mappings lines left in (ls ++ ls', left')
  ]

  -- HostMappings.String, for the entries in an order
  mappings_string : String → List (Host × Ip) → String
  unfolding line_string with_own_marking
  mappings_string ending [] = ending
  mappings_string ending ((host, ip) ∷ entries) =
      let l : Line = record { ip = some ip; hosts = host ∷ []; comments = [] } in
      ending <> (line_string (with_own_marking l) <> mappings_string ending entries)

  lines_string : String → List Line → String
  unfolding line_string
  lines_string ending [] = ""
  lines_string ending (l ∷ ls) = line_string l <> (ending <> lines_string ending ls)

  -- What AddHosts writes in place of the lines of a file; it leaves the file as it is if no mapping is
  -- missing. `range` is the order of an iteration over the mappings.
  unfoldable pub add_hosts :
      (HostMappings → List (Host × Ip)) → String → HostMappings → List String → Option String
  unfolding missing_ip_mappings mappings_string lines_string
  add_hosts range ending mappings lines =
      let (ls, left) = missing_ip_mappings lines mappings in
      if GoMap.len left == 0
      then none
      else some (lines_string ending ls <> mappings_string ending (range left))
