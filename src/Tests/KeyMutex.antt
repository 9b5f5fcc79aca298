-- ===== src/Tests/KeyMutex.antt =====
-- The lock of a key, used by one goroutine and raced for by two.
use fragua_age.Prelude.{◌≡◌, ◌≢◌, refl, true, none, some, [], arith}
use fragua_age.KeyMutex.{
  State, Steps, RwMutex, done, more, outside, inside, waits, writes, reads, finds, misses, creates,
  locks_for_writing, put, is_held,
}
use fragua_age.KeyMutex.Exclusion.{Known, Steps-exclusion, Steps-unlock}

-- The lock 0 of the key is known, and nobody uses it.
abbrev free_mutex : RwMutex
free_mutex = record { writer = none; readers = [] }

abbrev idle : State
idle = record { entry = some 0; next = 1; locks = λ l. free_mutex; places = λ i. outside }

idle-Known : Known 0 idle
idle-Known = record { entry = refl; fits = λ i. tt }

-- Goroutine 0 finds the lock and takes it for writing.
abbrev one_waits : State
one_waits = record idle { places = put idle.places 0 (waits writes 0) }

abbrev one_writes : State
one_writes = record one_waits {
  locks = put one_waits.locks 0 (record { writer = some 0; readers = [] });
  places = put one_waits.places 0 (inside writes 0);
}

one_writes-Steps : Steps idle one_writes
one_writes-Steps =
    more one_waits one_writes (more idle one_waits done (finds 0 writes 0 refl refl))
      (locks_for_writing 0 0 refl refl)

Steps-exclusion_example : one_writes.places 1 ≢ inside reads 0
Steps-exclusion_example =
    Steps-exclusion 0 idle one_writes 0 1 0 0 reads idle-Known one_writes-Steps
      (λ e. omega (arith, e)) refl

Steps-unlock_example : (one_writes.entry ≡ some 0) × (is_held writes (one_writes.locks 0) ≡ true)
Steps-unlock_example = Steps-unlock 0 idle one_writes 0 0 writes idle-Known one_writes-Steps refl

-- Two first users of a key miss its lock at the same time, and both take one for writing.
abbrev fresh : State
fresh = record { entry = none; next = 0; locks = λ l. free_mutex; places = λ i. outside }

both_write :
    (t : State) × Steps fresh t × (t.places 0 ≡ inside writes 0) × (t.places 1 ≡ inside writes 1)
both_write = (
  _,
  more _ _
      (more _ _
        (more _ _
          (more _ _
            (more _ _ (more _ _ done (misses 0 writes refl refl)) (misses 1 writes refl refl))
            (creates 0 writes refl))
          (creates 1 writes refl))
        (locks_for_writing 0 0 refl refl))
      (locks_for_writing 1 1 refl refl),
  refl,
  refl,
)
