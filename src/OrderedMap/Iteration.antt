-- ===== src/OrderedMap/Iteration.antt =====
-- What the readers of a SafeOrderedMap see: the entries in order, and the history of calls that made
-- them.
use fragua_age.Prelude.{
  ◌≡◌, refl, ap, ◌∙◌, Option, none, some, List, [], ◌∷◌, map, length, arith, or_zero, All, fun_ext,
  if_pos,
}
use fragua_age.GoMap
use fragua_age.OrderedMap
use fragua_age.OrderedMap.{OrderedMap}
use fragua_age.OrderedMap.Index.{names, length-names, index_of, Distinct}
use fragua_age.OrderedMap.Refinement.{Implements, lookup}

module _ {K V : Type 0} where
  abbrev pub contents : List (K × V) → List V
  contents [] = []
  contents ((k, v) ∷ l) = v ∷ contents l

  abbrev pub head_entry : List (K × V) → Option (K × V)
  head_entry [] = none
  head_entry ((k, v) ∷ l) = some (k, v)

module _ {K V : Type 0} (dec : Discrete K) where
  All-lookup-cons :
      (k : K) (v : V) (l r : List (K × V))
      → index_of dec k (names r) ≡ none
      → All (λ e. lookup dec e.0 l ≡ some e.1) r
      → All (λ e. lookup dec e.0 ((k, v) ∷ l) ≡ some e.1) r
  All-lookup-cons k v l [] e h = tt
  All-lookup-cons k v l ((j, w) ∷ r) e h =
      (ground (arith, h.0), All-lookup-cons k v l r (ground arith) h.1)

  pub All-lookup :
      (l : List (K × V)) → Distinct dec (names l) → All (λ e. lookup dec e.0 l ≡ some e.1) l
  All-lookup [] d = tt
  All-lookup ((k, v) ∷ l) d =
      (if_pos (dec k k) refl _ _, All-lookup-cons k v l l d.0 (All-lookup l d.1))

  module _ (m : OrderedMap K V) (l : List (K × V)) (h : Implements dec m l) where
    pub keys-Implements : (OrderedMap.keys m).1 ≡ names l
    unfolding OrderedMap.keys
    keys-Implements = ap (λ b. b.keys) h.synced ∙ h.order

    pub len-Implements : OrderedMap.len m ≡ length l
    unfolding OrderedMap.len
    len-Implements = rw (ap (λ b. b.keys) h.synced ∙ h.order) (length-names l)

    pub load-Implements : (k : K) → OrderedMap.load dec m k ≡ lookup dec k l
    unfolding OrderedMap.load
    load-Implements k = rw h.synced (h.stored k)

  module _ (zero_value : V) (m : OrderedMap K V) where
    abbrev read : K → V
    read k = or_zero zero_value (GoMap.get dec m.ro.internal k)

    read_entries :
        (l : List (K × V))
        → All (λ e. GoMap.get dec m.ro.internal e.0 ≡ some e.1) l
        → (map (λ k. (k, read k)) (names l) ≡ l) × (map read (names l) ≡ contents l)
    read_entries [] h = (refl, refl)
    read_entries ((k, v) ∷ l) h =
        let ih = read_entries l h.1 in (ground (arith, h.0, ih.0), ground (arith, h.0, ih.1))

    first_entry :
        (b : OrderedMap.Base K V) (l : List (K × V))
        → All (λ e. GoMap.get dec b.internal e.0 ≡ some e.1) l
        → OrderedMap.first_of dec zero_value b (names l) ≡ head_entry l
    unfolding OrderedMap.first_of
    first_entry b [] h = refl
    first_entry b ((k, v) ∷ l) h = rw h.0

    module _ (l : List (K × V)) (h : Implements dec m l) where
      ro_read : All (λ e. GoMap.get dec m.ro.internal e.0 ≡ some e.1) l
      ro_read = rw h.synced (rw (fun_ext h.stored) (All-lookup l h.distinct))

      -- Every reader of a SafeOrderedMap that implements an association list sees exactly the entries of
      -- the list, in the order in which their keys were first stored.
      pub readers-Implements :
          (OrderedMap.iter dec zero_value m ≡ (length l, l))
          × (OrderedMap.values dec zero_value m ≡ (length l, contents l))
          × (OrderedMap.keys m ≡ (length l, names l))
          × (OrderedMap.len m ≡ length l)
          × (OrderedMap.first dec zero_value m ≡ head_entry l)
          × ((k : K) → OrderedMap.load dec m k ≡ lookup dec k l)
      unfolding OrderedMap.iter OrderedMap.values OrderedMap.keys OrderedMap.len OrderedMap.first
          OrderedMap.load
      readers-Implements =
          let ks : m.ro.keys ≡ names l = ap (λ b. b.keys) h.synced ∙ h.order in
          let (es, vs) = read_entries l ro_read in
          (
            rw (ks, es, length-names),
            rw (ks, vs, length-names),
            rw (ks, length-names),
            rw (ks, length-names),
            rw ks (first_entry m.ro l ro_read),
            λ k. rw h.synced (h.stored k),
          )
