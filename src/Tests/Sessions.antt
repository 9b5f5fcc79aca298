-- ===== src/Tests/Sessions.antt =====
-- The theorems on users and sessions at concrete inputs.
use Prim.Native.String.{String}
use fragua_age.Prelude.{
  ℕ, suc, ◌+◌, ◌^◌, ◌<◌, ◌≡◌, ◌≢◌, ◌↔◌, refl, true, false, not, Option, none, some, List, [], ◌∷◌,
  is_some, take, arith, ℕ_discrete, zero,
}
use fragua_age.Prelude.Int.{pos, String_discrete}
use fragua_age.GoMap
use fragua_age.GoMap.{GoMap}
use fragua_age.SafeMap
use fragua_age.Json.{null}
use fragua_age.Sessions.{
  BaseSessions, new_base_sessions, create_session, create, initialize, generate_session_id, get,
  wait_for_messages,
}
use fragua_age.Sessions.Creating.{IsValid, pointer, Created, create_session-Created, create-returns}
use fragua_age.Sessions.Receiving.{taken, wait_for_messages-takes}
use fragua_age.User.{
  GenerateFn, User, initialized, generate, Arrival, entropy, seeds, generate_platform_user_id_steam,
  generate_platform_user_id_xbox, get_or_create_user, platform_user_id_of,
}
use fragua_age.User.Identity.{IsAddress, seeds-entropy, generate_platform_user_id-differs}
use fragua_age.User.Accounts.{log_all_in, get_or_create_user-again}
use fragua_age.Tests.{runtime}

abbrev waiting : List ℕ
waiting = 1 ∷ 2 ∷ []

abbrev arriving : List ℕ
arriving = 3 ∷ []

wait_for_messages-takes_example :
    wait_for_messages 2 7 waiting arriving ≡ taken 2 7 waiting arriving
wait_for_messages-takes_example = wait_for_messages-takes 2 7 waiting arriving (omega arith)

-- Sessions with numbers for ids and data; the first draw is 3 each time, and then 4.
abbrev draws : ℕ → ℕ
draws zero = 3
draws (suc k) = 4

abbrev none_yet : BaseSessions ℕ ℕ
none_yet = new_base_sessions 300

none_yet-IsValid : IsValid ℕ_discrete none_yet
unfolding new_base_sessions SafeMap.new_safe_map SafeMap.update_read_only GoMap.empty GoMap.get
none_yet-IsValid = record {
  synced = refl;
  below = λ id p e. absurd (ground (arith, e));
  owned = λ id p e. absurd (ground (arith, e));
}

abbrev sessions_of : Option (ℕ × BaseSessions ℕ ℕ) → BaseSessions ℕ ℕ
sessions_of none = none_yet
sessions_of (some (_, s)) = s

abbrev pointer_of : Option (ℕ × BaseSessions ℕ ℕ) → ℕ
pointer_of none = 0
pointer_of (some (p, _)) = p

abbrev opening : Option (ℕ × BaseSessions ℕ ℕ)
opening = create_session ℕ_discrete 2 draws 1000 8 none_yet

abbrev one : BaseSessions ℕ ℕ
one = sessions_of opening

opening-runs : opening ≡ some (pointer_of opening, one)
unfolding create_session new_base_sessions SafeMap.new_safe_map SafeMap.update_read_only GoMap.empty
    GoMap.get SafeMap.store ℕ_discrete
opening-runs = refl

create_session-Created_example : Created ℕ_discrete draws (1000 + 300) 8 none_yet one
unfolding new_base_sessions
create_session-Created_example =
    create_session-Created ℕ_discrete 2 draws 1000 8 none_yet one (pointer_of opening)
      none_yet-IsValid opening-runs

create-returns_example :
    is_some (create 5 (λ j. j) 1000 (pos 1) 190 initialize)
    ≡ not (is_some (pointer String_discrete initialize (generate_session_id (λ j. j))))
create-returns_example = create-returns 4 (λ j. j) 1000 (pos 1) 190 initialize

abbrev in_order : GoMap ℕ ℕ → List (ℕ × ℕ)
in_order m = m.entries

abbrev mac : List ℕ
mac = 2 ∷ 66 ∷ 172 ∷ 17 ∷ 0 ∷ 2 ∷ []

abbrev ipv4 : List ℕ
ipv4 = 10 ∷ 0 ∷ 0 ∷ 7 ∷ []

-- Two aliases with the same first 6 bytes.
abbrev alias_a : List ℕ
alias_a = 112 ∷ 108 ∷ 97 ∷ 121 ∷ 101 ∷ 114 ∷ 49 ∷ []

abbrev alias_b : List ℕ
alias_b = 112 ∷ 108 ∷ 97 ∷ 121 ∷ 101 ∷ 114 ∷ 50 ∷ []

seeds-entropy_example :
    seeds (entropy (some mac) (some ipv4) alias_a) ≡ seeds (entropy (some mac) (some ipv4) alias_b)
    ↔ (mac ≡ mac) × (ipv4 ≡ ipv4) × (take 6 alias_a ≡ take 6 alias_b)
seeds-entropy_example =
    let m : IsAddress 6 mac = (refl, ground arith) in
    let i : IsAddress 4 ipv4 = (refl, ground arith) in
    seeds-entropy mac mac ipv4 ipv4 alias_a alias_b m m i i (ground arith) (ground arith)

abbrev first_draw : ℕ
first_draw = 5

abbrev second_draw : ℕ
second_draw = 6

generate_platform_user_id-differs_example :
    (generate_platform_user_id_steam first_draw ≡ generate_platform_user_id_steam second_draw
      ↔ first_draw ≡ second_draw)
    × (generate_platform_user_id_xbox first_draw ≡ generate_platform_user_id_xbox second_draw
        ↔ first_draw ≡ second_draw)
    × (generate_platform_user_id_steam first_draw < 2 ^ 63)
    × (generate_platform_user_id_xbox first_draw < 2 ^ 63)
    × (generate_platform_user_id_steam first_draw ≢ generate_platform_user_id_xbox first_draw)
generate_platform_user_id-differs_example =
    generate_platform_user_id-differs first_draw second_draw first_draw second_draw (omega arith)
      (omega arith) (omega arith) (omega arith)

abbrev arrival : String → Arrival
arrival alias = record {
  mac = some mac;
  ipv4 = some ipv4;
  is_xbox = false;
  platform_user_id = 0;
  alias = alias;
}

abbrev generate_fn : GenerateFn User
generate_fn = initialized (generate runtime false null) none

get_or_create_user-again_example :
    get_or_create_user runtime true generate_fn (arrival "player2") (
      log_all_in runtime true
        ((generate_fn, arrival "guest") ∷ [])
        (get_or_create_user runtime true generate_fn (arrival "player1") SafeMap.new_safe_map).1)
    ≡ (
      (get_or_create_user runtime true generate_fn (arrival "player1") SafeMap.new_safe_map).0,
      log_all_in runtime true
          ((generate_fn, arrival "guest") ∷ [])
          (get_or_create_user runtime true generate_fn (arrival "player1") SafeMap.new_safe_map).1,
    )
unfolding SafeMap.new_safe_map SafeMap.update_read_only platform_user_id_of
get_or_create_user-again_example =
    get_or_create_user-again runtime true (generate_fn, arrival "player1")
      ((generate_fn, arrival "guest") ∷ []) (generate_fn, arrival "player2") SafeMap.new_safe_map
      refl refl
