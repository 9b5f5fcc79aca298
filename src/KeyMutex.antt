-- ===== src/KeyMutex.antt =====
-- server/internal/keyRWMutex.go: the lock of one key, as steps of the goroutines that use it. The keys do
-- not share anything but the mutex of the map, and each critical section of that is one step. Of a
-- sync.RWMutex the state keeps who holds it; an Unlock of a mutex that is not locked is fatal, no step.
pub mod Exclusion
use fragua_age.Prelude.{
  ℕ, suc, ◌≡◌, Option, none, some, List, [], ◌∷◌, ◌==◌, if◌then◌else◌, is_some, Bool, true, false,
  ℕ_discrete,
}
use fragua_age.OrderedMap.Index.{remove, index_of}

pub data Mode : Type 0 where
  reads writes : Mode

-- Where a goroutine is: it has found no lock, it has a lock to wait for, or it is between Lock and
-- Unlock, with the lock that it took.
pub data Place : Type 0 where
  outside : Place
  missed : Mode → Place
  waits : Mode → ℕ → Place
  inside : Mode → ℕ → Place

pub record RwMutex : Type 0 where
  pub writer : Option ℕ
  pub readers : List ℕ

pub record State : Type 0 where
  -- the mutex of the key in `mutexes`
  pub entry : Option ℕ
  pub next : ℕ
  pub locks : ℕ → RwMutex
  pub places : ℕ → Place

abbrev pub put : {A : Type 0} → (ℕ → A) → ℕ → A → ℕ → A
put f i x j = if i == j then x else f j

abbrev pub released : Mode → ℕ → RwMutex → RwMutex
released reads i m = record m { readers = remove ℕ_discrete i m.readers }
released writes i m = record m { writer = none }

abbrev any : List ℕ → Bool
any [] = false
any (_ ∷ _) = true

-- An unlock of the mode is not fatal.
abbrev pub is_held : Mode → RwMutex → Bool
is_held reads m = any m.readers
is_held writes m = is_some m.writer

-- getOrCreateLock, then Lock or RLock, then Unlock or RUnlock.
pub data Step (s : State) : State → Type 0 where
  finds :
      (i : ℕ) (m : Mode) (l : ℕ)
      → s.places i ≡ outside
      → s.entry ≡ some l
      → Step s (record s { places = put s.places i (waits m l) })
  misses :
      (i : ℕ) (m : Mode)
      → s.places i ≡ outside
      → s.entry ≡ none
      → Step s (record s { places = put s.places i (missed m) })
  creates :
      (i : ℕ) (m : Mode)
      → s.places i ≡ missed m
      → Step s (record s {
        entry = some s.next;
        next = suc s.next;
        places = put s.places i (waits m s.next);
      })
  locks_for_writing :
      (i l : ℕ)
      → s.places i ≡ waits writes l
      → s.locks l ≡ record { writer = none; readers = [] }
      → Step s (record s {
        locks = put s.locks l (record { writer = some i; readers = [] });
        places = put s.places i (inside writes l);
      })
  locks_for_reading :
      (i l : ℕ)
      → s.places i ≡ waits reads l
      → (s.locks l).writer ≡ none
      → Step s (record s {
        locks = put s.locks l (record { writer = none; readers = i ∷ (s.locks l).readers });
        places = put s.places i (inside reads l);
      })
  -- the mutex that is unlocked is the one of the map
  unlocks :
      (i : ℕ) (m : Mode) (taken l : ℕ)
      → s.places i ≡ inside m taken
      → s.entry ≡ some l
      → is_held m (s.locks l) ≡ true
      → Step s (record s {
        locks = put s.locks l (released m i (s.locks l));
        places = put s.places i outside;
      })

pub data Steps (s : State) : State → Type 0 where
  done : Steps s s
  more : (t u : State) → Steps s t → Step t u → Steps s u
