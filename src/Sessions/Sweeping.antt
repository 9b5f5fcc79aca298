-- ===== src/Sessions/Sweeping.antt =====
-- server/internal/models/baseSession.go: a tick of the sweeper.
use fragua_age.Prelude.{
  ℕ, ◌≡◌, ◌≤◌, ◌==◌, Bool, false, ◌||◌, Option, none, some, List, [], ◌∷◌, All, is_some, test, ltb,
}
use fragua_age.GoMap
use fragua_age.GoMap.{GoMap}
use fragua_age.SafeMap
use fragua_age.Sessions.{BaseSession, get}

module _ {T : Type 0} (dec : Discrete T) where
  abbrev pub is_key : {V : Type 0} → T → List (T × V) → Bool
  is_key id [] = false
  is_key id ((j, v) ∷ l) = test (dec j id) || is_key id l

  abbrev pub is_listed : T → List T → Bool
  is_listed id [] = false
  is_listed id (j ∷ l) = test (dec j id) || is_listed id l

  -- The entries of a map in some order: each is one of the map, and each key of the map is there.
  abbrev pub IsRange : GoMap T ℕ → List (T × ℕ) → Type 0
  IsRange m l =
      All (λ e. GoMap.get dec m e.0 ≡ some e.1) l
      × ((id : T) → is_key id l ≡ is_some (GoMap.get dec m id))

module _ {T D : Type 0} where
  abbrev pub is_expired : ℕ → Option (BaseSession T D) → Bool
  is_expired now none = false
  is_expired now (some sess) = ltb sess.expiry now

-- Some session of a list expires exactly at a time.
abbrev pub any_at : {T D : Type 0} → ℕ → List (Option (BaseSession T D)) → Bool
any_at now [] = false
any_at now (none ∷ l) = any_at now l
any_at now (some sess ∷ l) = (sess.expiry == now) || any_at now l

module _ {T D : Type 0} where
  -- What `earliest` finds: no session that has not expired, or the time of the one that expires first.
  abbrev IsEarliest : ℕ → List (Option (BaseSession T D)) → Option ℕ → Type 0
  IsEarliest now l none = any_at now l ≡ false
  IsEarliest now l (some t) = (now ≤ t) × (any_at now l ≡ (t == now))
