-- ===== src/Routes/Observing/Returning.antt =====
-- When StartObserving and StopObserving answer.
use fragua_age.Prelude.{◌≡◌, true, none, some, arith, is_some, inl, inr, Option-cases}
use fragua_age.Prelude.Int.{ℤ, ℤ_discrete}
use fragua_age.OrderedMap
use fragua_age.BattleServer.{Request}
use fragua_age.Advertisement
use fragua_age.Advertisements.{Advertisements, deref, assign, get_advertisement}
use fragua_age.Advertisements.Valid.{IsValid, found-Owns}
use fragua_age.Routes.{Site}
use fragua_age.Routes.Changes.{Live}
use fragua_age.Routes.Changes.Answering.{match_at}
use fragua_age.Routes.Find.{SearchQuery}
use fragua_age.Routes.Observing.{
  start_observing, start_found, stop_observing, stop_found, assign_observers,
}

-- From a valid state StartObserving and StopObserving answer without a panic exactly if the match does
-- not exist or has its set of observers, whatever the request says of the match and whoever asks.
pub observing-returns :
    (site : Site) (live : Live) (r : Request) (q : SearchQuery) (id user : ℤ) (s : Advertisements)
    → IsValid s
    → (is_some (start_observing site live r (some q) (some id) user s)
        ≡ elim (match_at s id) [ none ↦ true | some adv ↦ is_some adv.observer_ids ])
      × (is_some (stop_observing (some id) user s)
          ≡ elim (match_at s id) [ none ↦ true | some adv ↦ is_some adv.observer_ids ])
unfolding start_observing start_found stop_observing stop_found assign_observers get_advertisement
    deref assign match_at Advertisement.start_observing Advertisement.stop_observing
observing-returns site live r q id user s v =
    elim (Option-cases (OrderedMap.load ℤ_discrete s.store id)) [
      | inl e ↦ (ground (arith, e), ground (arith, e))
      | inr (p, e) ↦
          let o = found-Owns s v.0 id p v.1 e in (ground (arith, e, o.at), ground (arith, e, o.at))
    ]
