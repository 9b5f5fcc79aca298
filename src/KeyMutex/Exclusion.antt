-- ===== src/KeyMutex/Exclusion.antt =====
-- Once the lock of a key is known, it excludes.
use fragua_age.Prelude.{
  ℕ, ◌≡◌, ◌≢◌, refl, sym, ◌∙◌, ap, subst, inl, inr, none, some, List, [], ◌∷◌, ◌==◌, is_some, Bool,
  true, ℕ_discrete, arith, Bool-cases,
}
use fragua_age.OrderedMap.Index.{remove, index_of}
use fragua_age.KeyMutex.{
  Mode, reads, writes, Place, outside, missed, waits, inside, RwMutex, State, put, released, any,
  is_held, Step, finds, misses, creates, locks_for_writing, locks_for_reading, unlocks, Steps, done,
  more,
}

abbrev pub has_reader : ℕ → RwMutex → Bool
has_reader i m = is_some (index_of ℕ_discrete i m.readers)

-- The goroutine is where it can be when the lock of the key is `l`, whose state is `m`.
abbrev pub Fits : ℕ → RwMutex → ℕ → Place → Type 0
Fits l m i outside = Unit {0}
Fits l m i (missed _) = ⊥
Fits l m i (waits _ l') = l' ≡ l
Fits l m i (inside reads l') = (l' ≡ l) × (m.writer ≡ none) × (has_reader i m ≡ true)
Fits l m i (inside writes l') = (l' ≡ l) × (m.writer ≡ some i) × (m.readers ≡ [])

-- The lock of the key is known, and every goroutine fits it.
pub record Known (l : ℕ) (s : State) : Type 0 where
  pub entry : s.entry ≡ some l
  pub fits : (i : ℕ) → Fits l (s.locks l) i (s.places i)

Fits-place : (l : ℕ) (m : RwMutex) (i : ℕ) (p q : Place) → p ≡ q → Fits l m i p → Fits l m i q
Fits-place l m i p q e f = subst (Fits l m i) e f

same_lock : (l l' : ℕ) → some l ≡ some l' → l ≡ l'
same_lock l l' e = ground (arith, e)

-- A goroutine that moves, where the lock stays as it is.
moves :
    (l : ℕ) (m : RwMutex) (places : ℕ → Place) (i : ℕ) (p : Place)
    → ((j : ℕ) → Fits l m j (places j))
    → Fits l m i p
    → (j : ℕ) → Fits l m j (put places i p j)
moves l m places i p all f j = elim (Bool-cases (i == j)) [
  | inl hit ↦ rw hit (subst (λ k. Fits l m k p) (ground (arith, hit)) f)
  | inr miss ↦ rw miss (all j)
]

has_reader-cons :
    (i j : ℕ) (r : List ℕ)
    → is_some (index_of ℕ_discrete i r) ≡ true
    → is_some (index_of ℕ_discrete i (j ∷ r)) ≡ true
has_reader-cons i j r h = ground (arith, h)

has_reader-remove :
    (i j : ℕ) (r : List ℕ)
    → i ≢ j
    → is_some (index_of ℕ_discrete j (remove ℕ_discrete i r)) ≡ is_some (index_of ℕ_discrete j r)
has_reader-remove i j [] ne = refl
has_reader-remove i j (x ∷ r) ne = ground (arith, has_reader-remove i j r ne, ne)

-- The others fit when a writer takes a free lock, when a reader enters, and when one leaves.
write_others :
    (l i j : ℕ) (m m' : RwMutex) (p : Place)
    → m.writer ≡ none
    → m.readers ≡ []
    → Fits l m j p
    → Fits l m' j p
write_others l i j m m' outside w r f = tt
write_others l i j m m' (missed _) w r f = f
write_others l i j m m' (waits _ l') w r f = f
write_others l i j m m' (inside reads l') w r f = absurd (ground (arith, f.2, r))
write_others l i j m m' (inside writes l') w r f = absurd (ground (arith, f.1, w))

read_others :
    (l i j : ℕ) (m : RwMutex) (p : Place)
    → m.writer ≡ none
    → Fits l m j p
    → Fits l (record { writer = none; readers = i ∷ m.readers }) j p
read_others l i j m outside w f = tt
read_others l i j m (missed _) w f = f
read_others l i j m (waits _ l') w f = f
read_others l i j m (inside reads l') w f = (f.0, refl, has_reader-cons j i m.readers f.2)
read_others l i j m (inside writes l') w f = absurd (ground (arith, f.1, w))

release_others :
    (l i j taken : ℕ) (m : RwMutex) (mode : Mode) (p : Place)
    → i ≢ j
    → Fits l m i (inside mode taken)
    → Fits l m j p
    → Fits l (released mode i m) j p
release_others l i j taken m mode outside ne h f = tt
release_others l i j taken m mode (missed _) ne h f = f
release_others l i j taken m mode (waits _ l') ne h f = f
release_others l i j taken m reads (inside reads l') ne h f =
    (f.0, f.1, has_reader-remove i j m.readers ne ∙ f.2)
release_others l i j taken m reads (inside writes l') ne h f = absurd (ground (arith, h.1, f.1))
release_others l i j taken m writes (inside reads l') ne h f = absurd (ground (arith, h.1, f.1))
release_others l i j taken m writes (inside writes l') ne h f =
    absurd (ground (arith, h.1, f.1, ne))

put_same : {A : Type 0} (f : ℕ → A) (i j : ℕ) (x : A) → i ≡ j → put f i x j ≡ x
put_same f i j x e = rw e (put_self f j x)
  where
    put_self : {A : Type 0} (f : ℕ → A) (j : ℕ) (x : A) → put f j x j ≡ x
    put_self f j x = ground arith

-- A goroutine that moves, and the lock with it.
acts :
    (l l' : ℕ) (locks : ℕ → RwMutex) (places : ℕ → Place) (i : ℕ) (m : RwMutex) (p : Place)
    → l' ≡ l
    → ((j : ℕ) → i ≢ j → Fits l m j (places j))
    → Fits l m i p
    → (j : ℕ) → Fits l (put locks l' m l) j (put places i p j)
acts l l' locks places i m p e others f j =
    subst (λ k. Fits l k j (put places i p j)) (sym (put_same locks l' l m e)) (here j)
  where
    here : (j : ℕ) → Fits l m j (put places i p j)
    here j = elim (Bool-cases (i == j)) [
      | inl hit ↦ rw hit (subst (λ k. Fits l m k p) (ground (arith, hit)) f)
      | inr miss ↦ rw miss (others j (λ e. ground (arith, miss, e)))
    ]

module _ (l : ℕ) (s : State) (k : Known l s) where
  Fits-at : (i : ℕ) (p : Place) → s.places i ≡ p → Fits l (s.locks l) i p
  Fits-at i p e = Fits-place l (s.locks l) i (s.places i) p e (k.fits i)

  Step-Known : (t : State) → Step s t → Known l t
  Step-Known _ (finds i m l' at e) = record {
    entry = k.entry;
    fits = moves l (s.locks l) s.places i (waits m l') k.fits (same_lock l' l (sym e ∙ k.entry));
  }
  Step-Known _ (misses i m at e) = absurd (ground (arith, e, k.entry))
  Step-Known _ (creates i m at) = absurd (Fits-at i (missed m) at)
  Step-Known _ (locks_for_writing i l' at free) =
      let e : l' ≡ l = Fits-at i (waits writes l') at in
      let free' : s.locks l ≡ record { writer = none; readers = [] } = ap s.locks (sym e) ∙ free in
      let m' : RwMutex = record { writer = some i; readers = [] } in
      record {
        entry = k.entry;
        fits =
            acts l l' s.locks s.places i m' (inside writes l') e
              (λ j ne.
                write_others l i j (s.locks l) m' (s.places j) (ap (λ m. m.writer) free')
                  (ap (λ m. m.readers) free') (k.fits j))
              (e, refl, refl);
      }
  Step-Known _ (locks_for_reading i l' at free) =
      let e : l' ≡ l = Fits-at i (waits reads l') at in
      let m' : RwMutex = record { writer = none; readers = i ∷ (s.locks l').readers } in
      let same : m' ≡ record { writer = none; readers = i ∷ (s.locks l).readers } =
        ap (λ x. record { writer = none; readers = i ∷ (s.locks x).readers }) e in
      record {
        entry = k.entry;
        fits =
            acts l l' s.locks s.places i m' (inside reads l') e
              (λ j ne.
                subst (λ m. Fits l m j (s.places j)) (sym same)
                  (read_others l i j (s.locks l) (s.places j)
                    (ap (λ x. (s.locks x).writer) (sym e) ∙ free) (k.fits j)))
              (e, refl, ground arith);
      }
  Step-Known _ (unlocks i m taken l' at e held) =
      let same : l' ≡ l = same_lock l' l (sym e ∙ k.entry) in
      let h = Fits-at i (inside m taken) at in
      record {
        entry = k.entry;
        fits =
            acts l l' s.locks s.places i (released m i (s.locks l')) outside same
              (λ j ne.
                subst (λ x. Fits l (released m i (s.locks x)) j (s.places j)) (sym same)
                  (release_others l i j taken (s.locks l) m (s.places j) ne h (k.fits j)))
              tt;
      }

Steps-Known : (l : ℕ) (s t : State) → Known l s → Steps s t → Known l t
Steps-Known l s _ k done = k
Steps-Known l s u k (more t _ steps step) = Step-Known l t (Steps-Known l s t k steps) u step

excluded :
    (l : ℕ) (m : RwMutex) (i j a b : ℕ) (mode : Mode)
    → i ≢ j
    → Fits l m i (inside writes a)
    → Fits l m j (inside mode b)
    → ⊥
excluded l m i j a b reads ne f g = ground (arith, f.1, g.1)
excluded l m i j a b writes ne f g = ground (arith, f.1, g.1, ne)

-- From a state in which the lock of the key is in the map and no goroutine has missed it, whatever the
-- goroutines do: while one is between Lock and Unlock, no other is between Lock and Unlock or between
-- RLock and RUnlock.
pub Steps-exclusion :
    (l : ℕ) (s t : State) (i j a b : ℕ) (mode : Mode)
    → Known l s
    → Steps s t
    → i ≢ j
    → t.places i ≡ inside writes a
    → t.places j ≢ inside mode b
Steps-exclusion l s t i j a b mode k steps ne at at' =
    let known = Steps-Known l s t k steps in
    excluded l (t.locks l) i j a b mode ne (Fits-at l t known i (inside writes a) at)
      (Fits-at l t known j (inside mode b) at')

held :
    (l a i : ℕ) (m : RwMutex) (mode : Mode)
    → Fits l m i (inside mode a)
    → (a ≡ l) × (is_held mode m ≡ true)
held l a i m reads f = (f.0, ground (arith, any-index i m.readers f.2))
  where
    any-index : (i : ℕ) (r : List ℕ) → is_some (index_of ℕ_discrete i r) ≡ true → any r ≡ true
    any-index i [] h = ground (arith, h)
    any-index i (x ∷ r) h = refl
held l a i m writes f = (f.0, ground (arith, f.1))

-- From a state in which the lock of the key is in the map and no goroutine has missed it, whatever the
-- goroutines do: one that is between Lock and Unlock, or RLock and RUnlock, took the lock that is in
-- the map, which is the one that it will unlock, and that unlock is not fatal.
pub Steps-unlock :
    (l : ℕ) (s t : State) (i a : ℕ) (mode : Mode)
    → Known l s
    → Steps s t
    → t.places i ≡ inside mode a
    → (t.entry ≡ some a) × (is_held mode (t.locks a) ≡ true)
Steps-unlock l s t i a mode k steps at =
    let known = Steps-Known l s t k steps in
    let (same, locked) = held l a i (t.locks l) mode (Fits-at l t known i (inside mode a) at) in
    (known.entry ∙ ap some (sym same), ap (λ x. is_held mode (t.locks x)) same ∙ locked)
