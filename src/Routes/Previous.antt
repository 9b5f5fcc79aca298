-- ===== src/Routes/Previous.antt =====
-- "Leave the previous match if the user is already in one", in join.go and host.go.
use fragua_age.Prelude.{
  ℕ, ◌≡◌, ◌≢◌, refl, ◌⊎◌, inl, inr, true, false, Option, none, some, List, arith, Option-cases,
  Bool-cases,
}
use fragua_age.Prelude.Int.{ℤ, ℤ_discrete}
use fragua_age.Game.{Title, is_aoe4}
use fragua_age.Advertisements.{Advertisements, deref}
use fragua_age.Advertisements.Valid.{IsValid, roster}
use fragua_age.Advertisements.Leaving.{unsafe_remove_peer-roster}
use fragua_age.Advertisements.Presence.{
  is_in, has, OneMatch, is_in-after_leaving, none-after_leaving,
}
use fragua_age.Advertisements.Search.{get_user_advertisement}
use fragua_age.Advertisements.Search.Users.{UserIn, nowhere, inside, get_user_advertisement-UserIn}
use fragua_age.Routes.{Writes, leave_match, leave_previous}

-- The state after the user has left: others are where they were, and nothing is new.
pub record Left (title : Title) (s : Advertisements) (user : ℤ) (s' : Advertisements) : Type 0 where
  pub run : leave_previous title user s ≡ some (tt, s')
  pub valid : IsValid s'
  pub fewer : (j u : ℤ) → is_in s' j u ≡ true → is_in s j u ≡ true
  pub others : (j u : ℤ) → u ≢ user → is_in s' j u ≡ is_in s j u
  pub unlisted : (j : ℤ) → roster s j ≡ none → roster s' j ≡ none
  pub gone : is_aoe4 title ≡ false → OneMatch s → (j : ℤ) → is_in s' j user ≡ false

-- What a handler does from a state: it answers, and leaves a valid state; where users leave their
-- previous match, no user comes to be in two.
pub record Handled (title : Title) (s : Advertisements) (m : Option (Writes × Advertisements))
    : Type 0 where
  pub writes : Writes
  pub t : Advertisements
  pub run : m ≡ some (writes, t)
  pub valid : IsValid t
  pub one : is_aoe4 title ≡ false → OneMatch s → OneMatch t

pub unless_aoe4 :
    (title : Title) (P : Type 0) → (is_aoe4 title ≡ false → P) → is_aoe4 title ≡ true ⊎ P
unless_aoe4 title P h = elim (Bool-cases (is_aoe4 title)) [ inl e ↦ inl e | inr e ↦ inr (h e) ]

pub kept_unless_aoe4 :
    (title : Title) (P Q : Type 0)
    → (is_aoe4 title ≡ false → P → Q)
    → is_aoe4 title ≡ true ⊎ P
    → is_aoe4 title ≡ true ⊎ Q
kept_unless_aoe4 title P Q h (inl e) = inl e
kept_unless_aoe4 title P Q h (inr p) = unless_aoe4 title Q (λ e. h e p)

pub OneMatch-fewer :
    (s s' : Advertisements)
    → ((j u : ℤ) → is_in s' j u ≡ true → is_in s j u ≡ true)
    → OneMatch s
    → OneMatch s'
OneMatch-fewer s s' fewer one u i j hi hj = one u i j (fewer i u hi) (fewer j u hj)

module _ (title : Title) (s : Advertisements) (user : ℤ) (v : IsValid s) where
  unchanged :
      leave_previous title user s ≡ some (tt, s)
      → (is_aoe4 title ≡ false → (j : ℤ) → is_in s j user ≡ false)
      → Left title s user s
  unchanged run gone = record {
    run = run;
    valid = v;
    fewer = λ j u h. h;
    others = λ j u ne. refl;
    unlisted = λ j n. n;
    gone = λ t one j. gone t j;
  }

  aoe4_stays : is_aoe4 title ≡ true → leave_previous title user s ≡ some (tt, s)
  unfolding leave_previous
  aoe4_stays e = rw e

  absent :
      ((id : ℤ) (users : List ℤ) → roster s id ≡ some users → has user users ≡ false)
      → (j : ℤ) → is_in s j user ≡ false
  unfolding is_in
  absent h j = elim (Option-cases (roster s j)) [
    | inl e ↦ rw e
    | inr (users, e) ↦ rw e (h j users e)
  ]

  leaves :
      (r : Option ℕ)
      → is_aoe4 title ≡ false
      → get_user_advertisement user s ≡ some (r, s)
      → UserIn s user r
      → (s' : Advertisements) × Left title s user s'
  unfolding leave_previous leave_match deref is_in
  leaves none t run (nowhere h) = (s, unchanged (ground (arith, t, run)) (λ _. absent h))
  leaves (some _) t run (inside id p users owns load r present) =
      let (s', ran, valid, self, other) = unsafe_remove_peer-roster s id user users v r in
      let now = is_in-after_leaving s s' id user users r other self in
      let here : is_in s id user ≡ true = rw r present in
      (
        s',
        record {
          run = ground (arith, t, run, owns.at, owns.same_id, ran);
          valid = valid;
          fewer = λ j u h. ground (arith, now j u);
          others = λ j u ne. ground (arith, now j u);
          unlisted = none-after_leaving s s' id user users r other self;
          gone = λ _ one j. elim (ℤ_discrete id j) [
            | yes hit ↦ ground (arith, now j user, hit)
            | no miss ↦ elim (Bool-cases (is_in s j user)) [
              | inl there ↦ absurd (miss (one user id j here there))
              | inr e ↦ ground (arith, now j user, e)
            ]
          ];
        },
      )

  -- In a valid state this step panics in no case.
  pub leave_previous-Left : (s' : Advertisements) × Left title s user s'
  leave_previous-Left = elim (Bool-cases (is_aoe4 title)) [
    | inl e ↦ (s, unchanged (aoe4_stays e) (λ t. absurd (ground (arith, e, t))))
    | inr e ↦ let (r, run, ui) = get_user_advertisement-UserIn s user v.0 v.1 in leaves r e run ui
  ]
