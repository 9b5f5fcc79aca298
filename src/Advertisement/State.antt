-- ===== src/Advertisement/State.antt =====
-- server/internal/models/advertisement.go, UnsafeUpdateState over time: a match starts when it goes to
-- state 1, and then has its set of observers.
use fragua_age.Prelude.{
  ℕ, ◌≡◌, refl, ◌∙◌, Bool, true, false, ◌||◌, List, [], ◌∷◌, arith, is_some, All,
}
use fragua_age.Prelude.Int.{ℤ, pos, eq_ℤ}
use fragua_age.Advertisement.{Advertisement, update_state, start_observing, stop_observing}

-- The states that a match is set to, in turn, each with its time.
unfoldable pub updates : List (ℕ × ℤ) → Advertisement → Advertisement
unfolding update_state
updates [] adv = adv
updates ((now, state) ∷ us) adv = updates us (update_state now state adv)

abbrev pub is_started : ℤ → Bool
is_started state = eq_ℤ state (pos 1)

abbrev pub any_started : List (ℕ × ℤ) → Bool
any_started [] = false
any_started ((_, state) ∷ us) = is_started state || any_started us

-- A match in state 1 has its set of observers.
abbrev pub HasObservers : Advertisement → Type 0
HasObservers adv = is_started adv.state ≡ true → is_some adv.observer_ids ≡ true

update_state-HasObservers :
    (now : ℕ) (state : ℤ) (adv : Advertisement)
    → HasObservers adv
    → HasObservers (update_state now state adv)
unfolding update_state
update_state-HasObservers now state adv h = ground (arith, h)

observers-update_state :
    (now : ℕ) (state : ℤ) (adv : Advertisement)
    → HasObservers adv
    → is_some (update_state now state adv).observer_ids
      ≡ is_started state || is_some adv.observer_ids
unfolding update_state
observers-update_state now state adv h = ground (arith, h)

observers-updates :
    (us : List (ℕ × ℤ)) (adv : Advertisement)
    → HasObservers adv
    → is_some (updates us adv).observer_ids ≡ any_started us || is_some adv.observer_ids
unfolding updates
observers-updates [] adv h = refl
observers-updates ((now, state) ∷ us) adv h = ground (
  arith,
  observers-updates us (update_state now state adv) (update_state-HasObservers now state adv h),
  observers-update_state now state adv h,
)

-- For a match in which state 1 implies a set of observers, StartObserving and StopObserving after a
-- series of state updates return, and do not panic on a nil set, exactly if there was a set before or
-- one of the updates is to state 1.
pub observing-updates :
    (us : List (ℕ × ℤ)) (user : ℤ) (adv : Advertisement)
    → HasObservers adv
    → (is_some (start_observing user (updates us adv)) ≡ any_started us || is_some adv.observer_ids)
      × (is_some (stop_observing user (updates us adv))
          ≡ any_started us || is_some adv.observer_ids)
unfolding start_observing stop_observing
observing-updates us user adv h =
    (ground (arith, observers-updates us adv h), ground (arith, observers-updates us adv h))

-- Every update is to state 1.
abbrev pub AllStarted : List (ℕ × ℤ) → Type 0
AllStarted us = All (λ u. is_started u.1 ≡ true) us

-- What the start of a match fixes: while all updates are to state 1, nothing of the match changes but
-- for the first update that finds it in another state.
kept :
    (us : List (ℕ × ℤ)) (adv : Advertisement)
    → AllStarted us
    → is_started adv.state ≡ true
    → (updates us adv).start_time ≡ adv.start_time
unfolding updates update_state
kept [] adv h e = refl
kept ((now, state) ∷ us) adv h e =
    kept us (update_state now state adv) h.1 (ground (arith, e, h.0)) ∙ ground (arith, e, h.0)

-- A match that goes to state 1 at `now` has this start time, neither visible nor joinable, and keeps
-- the start time over any further updates to state 1.
pub start_time-updates :
    (now : ℕ) (us : List (ℕ × ℤ)) (adv : Advertisement)
    → is_started adv.state ≡ false
    → AllStarted us
    → ((updates us (update_state now (pos 1) adv)).start_time ≡ now)
      × ((update_state now (pos 1) adv).visible ≡ false)
      × ((update_state now (pos 1) adv).joinable ≡ false)
unfolding update_state
start_time-updates now us adv e h = (
  kept us (update_state now (pos 1) adv) h (ground arith) ∙ ground (arith, e),
  ground (arith, e),
  ground (arith, e),
)
