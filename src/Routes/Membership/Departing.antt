-- ===== src/Routes/Membership/Departing.antt =====
-- server/internal/routes/game/advertisement/leave.go: what Leave does to the matches and their users.
use fragua_age.Prelude.{
  ◌≡◌, refl, inl, inr, not, ◌&&◌, Option, none, some, arith, Option-cases, if◌then◌else◌,
}
use fragua_age.Prelude.Int.{ℤ, ℤ_discrete}
use fragua_age.OrderedMap
use fragua_age.Advertisements.{Advertisements, deref, get_advertisement}
use fragua_age.Advertisements.Valid.{IsValid, roster, found-Owns}
use fragua_age.Advertisements.Leaving.{unsafe_remove_peer-roster}
use fragua_age.Advertisements.Presence.{is_in, same, is_in-after_leaving}
use fragua_age.Routes.{fails, succeeds}
use fragua_age.Game.{Title}
use fragua_age.Routes.Previous.{Handled, OneMatch-fewer}
use fragua_age.Routes.Membership.{leave_found, leave}

module _ (s : Advertisements) (user id : ℤ) (v : IsValid s) where
  record Departed : Type 0 where
    t : Advertisements
    run : leave (some id) user s ≡ some ((if is_in s id user then succeeds else fails), t)
    valid : IsValid t
    now : (j u : ℤ) → is_in t j u ≡ (is_in s j u && not (same id j && same user u))

  departed : Departed
  unfolding leave leave_found get_advertisement deref is_in roster
  departed = elim (Option-cases (OrderedMap.load ℤ_discrete s.store id)) [
    | inl e ↦ record {
      t = s;
      run = ground (arith, e);
      valid = v;
      now = λ j u. elim (ℤ_discrete id j) [
        | yes hit ↦ ground (arith, e, hit)
        | no miss ↦ ground (arith, miss)
      ];
    }
    | inr (p, e) ↦
        let o = found-Owns s v.0 id p v.1 e in
        let users = (OrderedMap.keys o.adv.peers).1 in
        let listed : roster s id ≡ some users = rw (e, o.at) refl in
        let (t, ran, valid, self, others) = unsafe_remove_peer-roster s id user users v listed in
        record {
          t = t;
          run = ground (arith, e, o.at, o.same_id, ran);
          valid = valid;
          now = is_in-after_leaving s t id user users listed others self;
        }
  ]

pub leave-Handled :
    (title : Title) (id : Option ℤ) (user : ℤ) (s : Advertisements)
    → IsValid s
    → Handled title s (leave id user s)
unfolding leave
leave-Handled title none user s v = record {
  writes = fails;
  t = s;
  run = refl;
  valid = v;
  one = λ title one. one;
}
leave-Handled title (some id) user s v =
    let d = departed s user id v in
    record {
      writes = if is_in s id user then succeeds else fails;
      t = d.t;
      run = d.run;
      valid = d.valid;
      one = λ title. OneMatch-fewer s d.t (λ j u h. ground (arith, d.now j u));
    }

-- From a valid state Leave answers without a panic, with success exactly if the user was in the match;
-- then the user is not in it, every other user is in the same matches as before, and the state is valid.
pub leave-is_in :
    (user id : ℤ) (s : Advertisements)
    → IsValid s
    → (t : Advertisements) × (leave (some id) user s
        ≡ some ((if is_in s id user then succeeds else fails), t))
      × IsValid t
      × ((j u : ℤ) → is_in t j u ≡ (is_in s j u && not (same id j && same user u)))
leave-is_in user id s v = let d = departed s user id v in (d.t, d.run, d.valid, d.now)
