-- ===== src/Routes/Observing.antt =====
-- server/internal/routes/game/advertisement: startObserving.go and stopObserving.go. A response that is
-- nil is written as null.
pub mod Returning
use fragua_age.Prelude.{
  ℕ, Bool, true, not, ◌&&◌, ◌==◌, Option, none, some, List, [], ◌∷◌, ◌++◌, map, is_some,
  if◌then◌else◌,
}
use fragua_age.Prelude.Int.{ℤ, pos, eq_ℤ, ℤ_discrete, eq_String}
use fragua_age.Json.{Json, null, num, str, nat, array}
use fragua_age.OrderedMap
use fragua_age.BattleServer
use fragua_age.BattleServer.{BattleServer, Request}
use fragua_age.Advertisement
use fragua_age.Advertisement.{Advertisement}
use fragua_age.Advertisements.{M, pure, ◌>>=◌, ◌>>◌, deref, assign, get_advertisement}
use fragua_age.Routes.{Site}
use fragua_age.Routes.Changes.{Live}
use fragua_age.Routes.Find.{SearchQuery}

encode_start : Site → Request → ℤ → BattleServer → List Json → List Json → ℕ → Json
encode_start site r error_code b ids_int ids_str start = array (
    (num error_code ∷ str (BattleServer.resolve_ipv4 site.network r b) ∷ [])
    ++ (BattleServer.encode_ports b ++ array ids_int ∷ nat start ∷ array ids_str ∷ []))

-- joinReturnStartObservingError
unfoldable pub start_error : Site → Request → Json
unfolding encode_start
start_error site r =
    encode_start site r (pos 2) (BattleServer.new_battle_server site.battle_servers "") [] [] 0

differs : Option ℕ → ℕ → Bool
differs none t = true
differs (some q) t = not (t == q)

-- the condition of the first closure
unfoldable pub start_rejects : Site → SearchQuery → ℤ → Advertisement → Bool
unfolding differs
start_rejects site q user adv =
    adv.joinable
    && (is_some (OrderedMap.load ℤ_discrete adv.peers user)
        && (adv.visible
            && (not (eq_ℤ adv.app_binary_checksum q.app_binary_checksum)
                && (not (eq_ℤ adv.data_checksum q.data_checksum)
                    && (differs q.match_type adv.match_type
                        && (not (eq_String adv.mod_dll_file q.mod_dll_file)
                            && (not (eq_ℤ adv.mod_dll_checksum q.mod_dll_checksum)
                                && (not (eq_String adv.mod_name q.mod_name)
                                    && (not (eq_String adv.mod_version q.mod_version)
                                        && (not (adv.version_flags == q.version_flags)
                                            && (not adv.observers_enabled
                                                && not (
                                                    is_some (
                                                      BattleServer.get site.battle_servers
                                                        adv.relay_region)))))))))))))

-- the second closure: the errors written, and the response
start_reply : Site → Live → Request → Advertisement → Option BattleServer → List Json × Json
unfolding encode_start start_error
start_reply site live r adv none = (start_error site r ∷ [], null)
start_reply site live r adv (some b) =
    let users = (OrderedMap.keys adv.peers).1 in
    (
      [],
      encode_start site r (pos 0) b (map (λ u. array (num u ∷ array [] ∷ [])) users)
          (map (λ u. array (str (live.itoa u) ∷ array [] ∷ [])) users) adv.start_time,
    )

-- a call on a nil set of observers panics
assign_observers : ℕ → Option Advertisement → List Json → M (List Json)
unfolding assign
assign_observers p none writes s = none
assign_observers p (some adv) writes s = (do assign p adv; pure writes) s

module _ (site : Site) (live : Live) (r : Request) where
  start_found : SearchQuery → ℤ → Option ℕ → M (List Json)
  unfolding deref start_rejects start_reply assign_observers start_error
  start_found q user none = pure (start_error site r ∷ [])
  start_found q user (some p) = do
    adv ← deref p
    let warned = if start_rejects site q user adv then start_error site r ∷ [] else []
    let reply = start_reply site live r adv (BattleServer.get site.battle_servers adv.relay_region)
    assign_observers p (Advertisement.start_observing user adv)
        (warned ++ (reply.0 ++ reply.1 ∷ []))

  -- StartObserving, by the user of the session
  unfoldable pub start_observing : Option SearchQuery → Option ℤ → ℤ → M (List Json)
  unfolding start_found start_error get_advertisement
  start_observing none id user = pure (start_error site r ∷ [])
  start_observing (some q) none user = pure (start_error site r ∷ [])
  start_observing (some q) (some id) user = do
    found ← get_advertisement id
    start_found q user found

stop_found : ℤ → Option ℕ → M (List Json)
unfolding deref assign_observers
stop_found user none = pure (array (num (pos 0) ∷ []) ∷ [])
stop_found user (some p) = do
  adv ← deref p
  assign_observers p (Advertisement.stop_observing user adv) (array (num (pos 0) ∷ []) ∷ [])

-- StopObserving, by the user of the session
unfoldable pub stop_observing : Option ℤ → ℤ → M (List Json)
unfolding stop_found get_advertisement
stop_observing none user = pure (array (num (pos 2) ∷ []) ∷ [])
stop_observing (some id) user = do found ← get_advertisement id; stop_found user found
