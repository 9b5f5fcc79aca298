-- ===== src/OrderedMap/Refinement.antt =====
-- SafeOrderedMap against its specification, an association list in order of first insertion.
use fragua_age.Prelude.{
  ℕ, ◌≡◌, refl, sym, ap, ◌∙◌, inl, inr, ite, Bool, true, false, Option, none, some, List, [], ◌∷◌,
  ◌++◌, length, arith, is_some, if◌then◌else◌, Option-cases, Bool-cases,
}
use fragua_age.GoMap
use fragua_age.GoMap.{get-set, get-del, get-empty, get-map_values}
use fragua_age.SafeMap.{or_always}
use fragua_age.OrderedMap
use fragua_age.OrderedMap.{OrderedMap, update_read_only}
use fragua_age.OrderedMap.Index.{
  names, names-append, index_of, remove, Distinct, index-append, Distinct-append, index-remove,
  delete_at-index, Distinct-remove,
}

module _ {K V : Type 0} (dec : Discrete K) where
  -- The specification.
  abbrev pub lookup : K → List (K × V) → Option V
  lookup k [] = none
  lookup k ((j, v) ∷ l) = ite (dec j k) (some v) (lookup k l)

  abbrev pub replace_at : K → V → List (K × V) → List (K × V)
  replace_at k v [] = []
  replace_at k v ((j, w) ∷ l) = ite (dec j k) ((j, v) ∷ l) ((j, w) ∷ replace_at k v l)

  abbrev pub without : K → List (K × V) → List (K × V)
  without k [] = []
  without k ((j, v) ∷ l) = let rest = without k l in ite (dec j k) rest ((j, v) ∷ rest)

  unfoldable pub spec_store : K → V → Option (V → Bool) → List (K × V) → (Bool × V) × List (K × V)
  spec_store k v f l = elim (lookup k l) [
    | none ↦ ((false, v), l ++ (k, v) ∷ [])
    | some w ↦ if or_always f w then ((true, v), replace_at k v l) else ((true, w), l)
  ]

  unfoldable pub spec_delete : K → List (K × V) → Bool × List (K × V)
  spec_delete k l = (is_some (lookup k l), without k l)

  pub lookup-append :
      (j k : K) (v : V) (l : List (K × V))
      → lookup j (l ++ (k, v) ∷ [])
        ≡ elim (lookup j l) [ none ↦ ite (dec k j) (some v) none | some w ↦ some w ]
  lookup-append j k v [] = refl
  lookup-append j k v ((i, w) ∷ l) = ground (arith, lookup-append j k v l)

  pub lookup-replace_at :
      (j k : K) (v : V) (l : List (K × V))
      → is_some (lookup k l) ≡ true
      → lookup j (replace_at k v l) ≡ ite (dec k j) (some v) (lookup j l)
  lookup-replace_at j k v [] e = ground arith
  lookup-replace_at j k v ((i, w) ∷ l) e = ground (arith, lookup-replace_at j k v l)

  pub lookup-without :
      (j k : K) (l : List (K × V)) → lookup j (without k l) ≡ ite (dec k j) none (lookup j l)
  lookup-without j k [] = ground arith
  lookup-without j k ((i, w) ∷ l) = ground (arith, lookup-without j k l)

  pub names-replace_at : (k : K) (v : V) (l : List (K × V)) → names (replace_at k v l) ≡ names l
  names-replace_at k v [] = refl
  names-replace_at k v ((i, w) ∷ l) = ground (arith, names-replace_at k v l)

  pub names-without : (k : K) (l : List (K × V)) → names (without k l) ≡ remove dec k (names l)
  names-without k [] = refl
  names-without k ((i, w) ∷ l) = ground (arith, names-without k l)

  pub index-names :
      (k : K) (l : List (K × V)) → is_some (index_of dec k (names l)) ≡ is_some (lookup k l)
  index-names k [] = refl
  index-names k ((i, w) ∷ l) = ground (arith, index-names k l)

  -- The map holds the entries `l`, each key once, in order; the index of every key is right; and the
  -- readers' copy is the writers' map.
  pub record Implements (m : OrderedMap K V) (l : List (K × V)) : Type 0 where
    pub order : m.base.keys ≡ names l
    pub stored : (k : K) → GoMap.get dec m.internal k ≡ lookup k l
    pub indexed : (k : K) → GoMap.get dec m.key_map k ≡ index_of dec k (names l)
    pub distinct : Distinct dec (names l)
    pub synced : m.ro ≡ m.base

  pub new-Implements : Implements OrderedMap.new_ordered_map []
  unfolding OrderedMap.new_ordered_map
  new-Implements = record {
    order = refl;
    stored = λ k. get-empty dec k;
    indexed = λ k. get-empty dec k;
    distinct = tt;
    synced = refl;
  }

  without_absent : (k : K) (l : List (K × V)) → lookup k l ≡ none → without k l ≡ l
  without_absent k [] e = refl
  without_absent k ((i, w) ∷ l) e = ground (arith, without_absent k l)

  absent : (k : K) (l : List (K × V)) → lookup k l ≡ none → index_of dec k (names l) ≡ none
  absent k l e = ground (arith, index-names k l)

  module _ (m : OrderedMap K V) (l : List (K × V)) (h : Implements m l) where
    appended : K → V → OrderedMap K V
    unfolding update_read_only
    appended k v = update_read_only (record m {
      inner = record {
        base = record { internal = GoMap.set dec m.internal k v; keys = m.base.keys ++ k ∷ [] };
        key_map = GoMap.set dec m.key_map k (length m.base.keys);
      };
    })

    appended-Implements :
        (k : K) (v : V) → lookup k l ≡ none → Implements (appended k v) (l ++ (k, v) ∷ [])
    unfolding appended
    appended-Implements k v e = record {
      order = ap (λ ks. ks ++ k ∷ []) h.order ∙ sym (names-append l k v);
      stored =
          λ j. ground (arith, get-set dec m.internal k j v, lookup-append j k v l, h.stored j, e);
      indexed = λ j. rw names-append (
          ground (
            arith,
            get-set dec m.key_map k j (length m.base.keys),
            index-append dec j k (names l),
            h.indexed j,
            absent k l e,
            ap length h.order,
          ));
      distinct = rw names-append (Distinct-append dec k (names l) h.distinct (absent k l e));
      synced = refl;
    }

    replaced : K → V → OrderedMap K V
    unfolding update_read_only
    replaced k v = update_read_only (record m {
      inner = record {
        base = record { internal = GoMap.set dec m.internal k v; keys = m.base.keys };
        key_map = m.key_map;
      };
    })

    replaced-Implements :
        (k : K) (v w : V) → lookup k l ≡ some w → Implements (replaced k v) (replace_at k v l)
    unfolding replaced
    replaced-Implements k v w e = record {
      order = h.order ∙ sym (names-replace_at k v l);
      stored = λ j.
          ground (arith, get-set dec m.internal k j v, lookup-replace_at j k v l, h.stored j, e);
      indexed = λ j. rw names-replace_at (h.indexed j);
      distinct = rw names-replace_at h.distinct;
      synced = refl;
    }

    pub store-Implements :
        (k : K) (v : V) (f : Option (V → Bool))
        → ((OrderedMap.store dec k v f m).0 ≡ (spec_store k v f l).0)
          × Implements (OrderedMap.store dec k v f m).1 (spec_store k v f l).1
    unfolding OrderedMap.store spec_store
    store-Implements k v f = elim (Option-cases (lookup k l)) [
      | inl e ↦
          let e' = h.stored k ∙ e in
          rw (e', e, OrderedMap.store, spec_store)
            (refl, unfold appended in appended-Implements k v e)
      | inr (w, e) ↦
          let e' = h.stored k ∙ e in
          rw (e', e, OrderedMap.store, spec_store)
            (elim (Bool-cases (or_always f w)) [
              | inl t ↦ rw t (refl, unfold replaced in replaced-Implements k v w e)
              | inr t ↦ rw t (refl, h)
            ])
    ]

    removed : K → ℕ → OrderedMap K V
    unfolding update_read_only
    removed k i = update_read_only (record m {
      inner = record {
        base = record { internal = GoMap.del dec m.internal k; keys = remove dec k (names l) };
        key_map = GoMap.map_values (OrderedMap.shift_down i) (GoMap.del dec m.key_map k);
      };
    })

    removed-Implements :
        (k : K) (i : ℕ) → index_of dec k (names l) ≡ some i → Implements (removed k i) (without k l)
    unfolding removed
    removed-Implements k i e = record {
      order = sym (names-without k l);
      stored = λ j. ground (arith, get-del dec m.internal k j, lookup-without j k l, h.stored j);
      indexed = λ j. rw names-without (
          ground (
            arith,
            get-map_values dec (OrderedMap.shift_down i) (GoMap.del dec m.key_map k) j,
            get-del dec m.key_map k j,
            index-remove dec j k (names l) i h.distinct e,
            h.indexed j,
          ));
      distinct = rw names-without (Distinct-remove dec k (names l) h.distinct);
      synced = refl;
    }

    delete_present :
        (k : K) (w : V) (i : ℕ)
        → lookup k l ≡ some w
        → index_of dec k (names l) ≡ some i
        → OrderedMap.delete dec k m ≡ some (true, removed k i)
    unfolding OrderedMap.delete removed
    delete_present k w i e ei =
        ground
          (arith, h.stored k, h.indexed k, h.order, delete_at-index dec k (names l) i h.distinct ei)

    -- Delete never panics.
    pub delete-Implements :
        (k : K)
        → (m' : OrderedMap K V) × (OrderedMap.delete dec k m ≡ some ((spec_delete k l).0, m'))
          × Implements m' (spec_delete k l).1
    unfolding spec_delete
    delete-Implements k = elim (Option-cases (lookup k l)) [
      | inl e ↦
          (m, unfold OrderedMap.delete in ground (arith, h.stored k), rw (without_absent k l e) h)
      | inr (w, e) ↦ elim (Option-cases (index_of dec k (names l))) [
        | inl none_ ↦ absurd (ground (arith, index-names k l))
        | inr (i, ei) ↦ (removed k i, delete_present k w i e ei ∙ rw e, removed-Implements k i ei)
      ]
    ]
