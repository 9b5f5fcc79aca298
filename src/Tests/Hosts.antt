-- ===== src/Tests/Hosts.antt =====
-- The theorems on the hosts file at concrete inputs.
use Prim.Native.String.{String, len as text_length, slice}
use fragua_age.Prelude.{◌≡◌, refl, false, none, some, List, [], ◌∷◌, if◌then◌else◌}
use fragua_age.Prelude.Int.{String_discrete, eq_String}
use fragua_age.GoMap
use fragua_age.Hosts.{Platform, Host, HostMappings, avoid, keep, missing_ip_mappings}
use fragua_age.Hosts.Missing.{given, unless_given, has_host, missing_ip_mappings-given, avoid-loses}

-- Every line is read as the address "ip" with the hosts "api" and "cdn".
abbrev platform : Platform
platform = record {
  byte_len = text_length;
  cut = λ s n. slice s 0 n;
  fields = λ s. "ip" ∷ "api" ∷ "cdn" ∷ [];
  split_marker = λ s. s ∷ [];
  split_line = λ s. (s, none);
  parse_ip = λ s. if eq_String s "ip" then some s else none;
  ip_string = λ s. s;
  ip_equal = eq_String;
  to_unicode = λ s. some s;
  to_ascii = λ s. s;
  max_chars_per_line = 256;
  max_hosts_per_line = 9;
  line_ending = "\n";
  hostname = "me";
}

abbrev wanted_hosts : HostMappings platform
wanted_hosts = record { entries = ("api", "ip") ∷ ("other", "ip") ∷ [] }

abbrev lines : List String
lines = "ip api cdn" ∷ []

abbrev line_hosts : List Host
line_hosts = "api" ∷ "cdn" ∷ []

missing_ip_mappings-given_example :
    GoMap.get String_discrete (missing_ip_mappings platform lines wanted_hosts).1 "api"
    ≡ unless_given (given platform "ip" "api" lines) (some "ip")
unfolding GoMap.get String_discrete
missing_ip_mappings-given_example =
    missing_ip_mappings-given platform lines wanted_hosts "api" "ip" refl

avoid-loses_example :
    (has_host "api" (keep platform line_hosts (avoid platform "ip" line_hosts wanted_hosts).0)
      ≡ false)
    × (GoMap.get String_discrete (avoid platform "ip" line_hosts wanted_hosts).1 "api" ≡ none)
    × (GoMap.get String_discrete
          (missing_ip_mappings platform lines (avoid platform "ip" line_hosts wanted_hosts).1).1
          "api"
        ≡ none)
unfolding GoMap.get String_discrete
avoid-loses_example =
    avoid-loses platform "ip" "api" "ip" line_hosts wanted_hosts lines refl refl refl
