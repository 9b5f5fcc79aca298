-- ===== src/User/Accounts.antt =====
-- server/internal/models/user.go: GetOrCreateUser against the identities of the users.
use Prim.Native.String.{String}
use fragua_age.Prelude.{
  ◌≡◌, refl, sym, subst, ◌∙◌, inl, inr, Bool, none, some, List, [], ◌∷◌, arith, Option-cases,
}
use fragua_age.Prelude.Int.{String_discrete}
use fragua_age.GoMap
use fragua_age.GoMap.{get-set}
use fragua_age.SafeMap
use fragua_age.SafeMap.{SafeMap}
use fragua_age.SafeMap.Refinement.{IsSynced}
use fragua_age.User.{
  UsersOf, GenerateFn, Runtime, Arrival, get_or_create_user, get_platform_path, platform_user_id_of,
}

-- The users log in one after the other, each with what would make a new user of theirs.
abbrev pub Login : Type 0 → Type 0
Login U = GenerateFn U × Arrival

-- the key of a user
abbrev pub identity : Runtime → Bool → Arrival → String
identity go generated a = get_platform_path go a.is_xbox (platform_user_id_of go generated a)

module _ {U : Type 0} (go : Runtime) (generated : Bool) where
  abbrev pub log_in : Login U → UsersOf U → U × UsersOf U
  log_in (generate_fn, a) users = get_or_create_user go generated generate_fn a users

  abbrev pub log_all_in : List (Login U) → UsersOf U → UsersOf U
  log_all_in [] users = users
  log_all_in (l ∷ ls) users = log_all_in ls (log_in l users).1

  abbrev created : Login U → U
  created (generate_fn, a) =
      generate_fn (identity go generated a) a.is_xbox (platform_user_id_of go generated a) a.alias

  abbrev with_user : String → U → UsersOf U → UsersOf U
  with_user key u users = record {
    wo = GoMap.set String_discrete users.wo key u;
    ro = GoMap.set String_discrete users.wo key u;
  }

  log_in_fresh :
      (l : Login U) (users : UsersOf U)
      → GoMap.get String_discrete users.wo (identity go generated l.1) ≡ none
      → log_in l users ≡ (created l, with_user (identity go generated l.1) (created l) users)
  unfolding get_or_create_user SafeMap.load_or_store_fn SafeMap.update_read_only
  log_in_fresh (generate_fn, a) users n = ground (arith, n)

  log_in_known :
      (l : Login U) (users : UsersOf U) (u : U)
      → GoMap.get String_discrete users.wo (identity go generated l.1) ≡ some u
      → log_in l users ≡ (u, users)
  unfolding get_or_create_user SafeMap.load_or_store_fn
  log_in_known (generate_fn, a) users u e = ground (arith, e)

  abbrev Holds : String → U → UsersOf U → Type 0
  Holds key u users = IsSynced users × (GoMap.get String_discrete users.wo key ≡ some u)

  -- Whoever logs in finds or makes the user of this identity, and no user that is stored is replaced.
  log_in-Holds :
      (l : Login U) (users : UsersOf U)
      → IsSynced users
      → Holds (identity go generated l.1) (log_in l users).0 (log_in l users).1
        × ((key : String) (u : U) → Holds key u users → Holds key u (log_in l users).1)
  log_in-Holds l users synced =
      elim (Option-cases (GoMap.get String_discrete users.wo (identity go generated l.1))) [
        | inl n ↦
            subst
              (λ r.
                Holds (identity go generated l.1) r.0 r.1
                × ((key : String) (u : U) → Holds key u users → Holds key u r.1))
              (sym (log_in_fresh l users n))
              (
                (
                  refl,
                  get-set String_discrete users.wo (identity go generated l.1) _ (created l)
                      ∙ ground arith,
                ),
                λ key u h. (
                  refl,
                  get-set String_discrete users.wo (identity go generated l.1) key (created l)
                      ∙ ground (arith, n, h.1),
                ),
              )
        | inr (v, e) ↦
            subst
              (λ r.
                Holds (identity go generated l.1) r.0 r.1
                × ((key : String) (u : U) → Holds key u users → Holds key u r.1))
              (sym (log_in_known l users v e)) ((synced, e), λ key u h. h)
      ]

  log_all_in-Holds :
      (ls : List (Login U)) (users : UsersOf U) (key : String) (u : U)
      → Holds key u users
      → Holds key u (log_all_in ls users)
  log_all_in-Holds [] users key u h = h
  log_all_in-Holds (l ∷ ls) users key u h =
      log_all_in-Holds ls _ key u ((log_in-Holds l users h.0).1 key u h)

-- Whatever GenerateFn the title has, in a store of users that no writer is changing: once a user has logged in and any others after it, a
-- later login with the same platform and the same platform id, from wherever and under any alias, yields
-- the user of the first login and changes no user.
pub get_or_create_user-again :
    {U : Type 0} (go : Runtime) (generated : Bool) (l : Login U) (ls : List (Login U))
    (again : Login U) (users : UsersOf U)
    → IsSynced users
    → identity go generated l.1 ≡ identity go generated again.1
    → get_or_create_user go generated again.0 again.1
        (log_all_in go generated ls (get_or_create_user go generated l.0 l.1 users).1)
      ≡ (
        (get_or_create_user go generated l.0 l.1 users).0,
        log_all_in go generated ls (get_or_create_user go generated l.0 l.1 users).1,
      )
get_or_create_user-again go generated l ls again users synced same =
    let (u, t) = get_or_create_user go generated l.0 l.1 users in
    let now = log_all_in go generated ls t in
    let first = (log_in-Holds go generated l users synced).0 in
    let kept = log_all_in-Holds go generated ls t _ u first in
    log_in_known go generated again now u
      (subst (λ k. GoMap.get String_discrete now.wo k ≡ some u) same kept.1)
