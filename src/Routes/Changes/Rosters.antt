-- ===== src/Routes/Changes/Rosters.antt =====
-- The routes that change one match keep the users of every match.
use Prim.Native.String.{String}
use fragua_age.Prelude.{
  ℕ, ◌≡◌, refl, sym, ◌∙◌, ap, subst, inl, inr, Option, none, some, [], ◌∷◌, ◌++◌, arith, map,
  is_some, Option-cases, Bool-cases, if◌then◌else◌,
}
use fragua_age.Prelude.Int.{ℤ, ℤ_discrete, eq_ℤ}
use fragua_age.OrderedMap
use fragua_age.GoMap.{GoMap}
use fragua_age.Advertisement
use fragua_age.Advertisement.{Advertisement, UpdateRequest, encode_server_name}
use fragua_age.Advertisements.{Advertisements, deref, assign, get_advertisement}
use fragua_age.Advertisements.Valid.{Owns, IsValid, roster, written, found-Owns}
use fragua_age.Advertisements.Writing.{Kept, Kept-refl, written-Kept}
use fragua_age.Routes.{Site, Writes, fails, succeeds}
use fragua_age.Routes.Changes.{
  Live, Messages, TagRequest, updated, update_error, update_found, update, parse_tags, tags_found,
  update_tags, platform_id_found, platform_message, present, update_platform_id, to_uint64,
  state_found, update_state,
}
use fragua_age.Routes.Changes.Answering.{
  Answers, panics, answers, updated-same, update_wrote, state_wrote,
}

module _ {A : Type 0} where
  state_of : Advertisements → Option (A × Advertisements) → Advertisements
  state_of s none = s
  state_of s (some (_, t)) = t

  -- A run has one result.
  pub same_state :
      (m : Option (A × Advertisements)) (a b : A) (t t' : Advertisements)
      → m ≡ some (a, t)
      → m ≡ some (b, t')
      → t ≡ t'
  unfolding state_of
  same_state m a b t t' e e' = ap (state_of t) (sym e ∙ e')

  Answers-Kept :
      (s t : Advertisements) (m : Option (A × Advertisements))
      → Kept s t
      → Answers t m
      → (a : A) (t' : Advertisements) → m ≡ some (a, t')
      → Kept s t'
  Answers-Kept s t m k (panics e) a t' f = absurd (ground (arith, e, f))
  Answers-Kept s t m k (answers b e) a t' f = subst (Kept s) (same_state m b a t t' e f) k

-- A change of one match: the routes Update, UpdateState, UpdateTags, and the two of updatePlatformID.
pub data Change : Type 0 where
  by_update : ℕ → Option (ℤ × UpdateRequest) → Change
  by_state : ℕ → Option (ℤ × ℤ) → Change
  by_tags : Option TagRequest → Option ℤ → ℤ → Change
  by_platform_id : Option ℤ → Option ℤ → ℤ → Change

abbrev pub quiet : Option (Writes × Advertisements) → Option ((Writes × Messages) × Advertisements)
quiet none = none
quiet (some (w, t)) = some ((w, []), t)

-- A change, with its responses and messages.
unfoldable pub change :
    Site → Live → Change → Advertisements → Option ((Writes × Messages) × Advertisements)
change site live (by_update now q) s = quiet (update site now q s)
change site live (by_state now q) s = update_state site live now q s
change site live (by_tags tags id user) s = quiet (update_tags tags id user s)
change site live (by_platform_id id value user) s = update_platform_id site live id value user s

Answers-quiet :
    (t : Advertisements) (m : Option (Writes × Advertisements)) → Answers t m → Answers t (quiet m)
Answers-quiet t m (panics e) = panics (rw e refl)
Answers-quiet t m (answers w e) = answers (w, []) (rw e refl)

module _ (site : Site) (s : Advertisements) (v : IsValid s) (id : ℤ) (p : ℕ)
    (load : OrderedMap.load ℤ_discrete s.store id ≡ some p) (o : Owns s.heap (id, p)) where
  tags_wrote :
      (integer : GoMap String ℤ) (text : GoMap String String) (user : ℤ)
      → tags_found integer text user (some p) s ≡ (
          if eq_ℤ o.adv.host_id user
          then some (succeeds, written s p (Advertisement.update_tags integer text o.adv))
          else some (fails, s))
  unfolding tags_found deref assign
  tags_wrote integer text user = ground (arith, o.at)

  platform_wrote :
      (live : Live) (value : ℕ) (user : ℤ)
      → platform_id_found site live id value user (some p) s ≡ (
          if is_some (OrderedMap.load ℤ_discrete o.adv.peers user)
          then some (
            (
              succeeds,
              map
                  (λ u. (u, platform_message site.title id o.adv.xbox_session_id value))
                  (present live (OrderedMap.keys o.adv.peers).1),
            ),
            written s p (Advertisement.update_platform_session_id value o.adv),
          )
          else some ((fails, []), s))
  unfolding platform_id_found deref assign
  platform_wrote live value user = ground (arith, o.at)

-- Where a change leads, if it answers.
record Changed (s : Advertisements) {A : Type 0} (m : Option (A × Advertisements)) : Type 0 where
  t : Advertisements
  kept : Kept s t
  run : Answers t m

update_state-same :
    (now : ℕ) (state : ℤ) (adv : Advertisement)
    → ((Advertisement.update_state now state adv).id ≡ adv.id)
      × ((Advertisement.update_state now state adv).peers ≡ adv.peers)
unfolding Advertisement.update_state
update_state-same now state adv = (ground arith, ground arith)

module _ (site : Site) (s : Advertisements) (v : IsValid s) where
  same_again :
      {A : Type 0} (m : Option (A × Advertisements)) (a : A) → m ≡ some (a, s) → Changed s m
  same_again m a e = record { t = s; kept = Kept-refl s v; run = answers a e }

  update-Changed : (now : ℕ) (q : Option (ℤ × UpdateRequest)) → Changed s (update site now q s)
  unfolding update update_found get_advertisement
  update-Changed now none = same_again _ (update_error site.title ∷ []) refl
  update-Changed now (some (id, q)) = elim (Option-cases (OrderedMap.load ℤ_discrete s.store id)) [
    | inl e ↦ same_again _ (update_error site.title ∷ []) (ground (arith, e))
    | inr (p, e) ↦
        let o = found-Owns s v.0 id p v.1 e in
        let same = updated-same site.title now q o.adv in
        record {
          t = written s p (updated site.title now q o.adv);
          kept = written-Kept s v id p o e (updated site.title now q o.adv) same.0 same.1;
          run = update_wrote site s v id p e o now q;
        }
  ]

  tags-Changed :
      (tags : Option TagRequest) (id : Option ℤ) (user : ℤ) → Changed s (update_tags tags id user s)
  unfolding update_tags get_advertisement tags_found Advertisement.update_tags
  tags-Changed tags id user = elim (Option-cases (parse_tags tags)) [
    | inl e ↦ same_again _ fails (ground (arith, e))
    | inr ((integer, text), e) ↦ elim (Option-cases id) [
      | inl n ↦ same_again _ fails (ground (arith, e, n))
      | inr (i, f) ↦ elim (Option-cases (OrderedMap.load ℤ_discrete s.store i)) [
        | inl g ↦ same_again _ fails (ground (arith, e, f, g))
        | inr (p, g) ↦
            let o = found-Owns s v.0 i p v.1 g in
            let wrote = tags_wrote site s v i p g o integer text user in
            elim (Bool-cases (eq_ℤ o.adv.host_id user)) [
              | inr h ↦ same_again _ fails (ground (arith, e, f, g, h, wrote))
              | inl h ↦ record {
                t = written s p (Advertisement.update_tags integer text o.adv);
                kept =
                    written-Kept s v i p o g (Advertisement.update_tags integer text o.adv) refl
                      refl;
                run = answers succeeds (ground (arith, e, f, g, h, wrote));
              }
            ]
      ]
    ]
  ]

  platform-Changed :
      (live : Live) (id value : Option ℤ) (user : ℤ)
      → Changed s (update_platform_id site live id value user s)
  unfolding update_platform_id get_advertisement platform_id_found
      Advertisement.update_platform_session_id
  platform-Changed live none value user = same_again _ (fails, []) refl
  platform-Changed live (some id) none user = same_again _ (fails, []) refl
  platform-Changed live (some id) (some value) user =
      elim (Option-cases (OrderedMap.load ℤ_discrete s.store id)) [
        | inl e ↦ same_again _ (fails, []) (ground (arith, e))
        | inr (p, e) ↦
            let o = found-Owns s v.0 id p v.1 e in
            let wrote = platform_wrote site s v id p e o live (to_uint64 value) user in
            elim (Bool-cases (is_some (OrderedMap.load ℤ_discrete o.adv.peers user))) [
              | inr h ↦ same_again _ (fails, []) (ground (arith, e, h, wrote))
              | inl h ↦ record {
                t = written s p (Advertisement.update_platform_session_id (to_uint64 value) o.adv);
                kept =
                    written-Kept s v id p o e
                      (Advertisement.update_platform_session_id (to_uint64 value) o.adv) refl refl;
                run =
                    answers
                      (
                        succeeds,
                        map
                            (λ u. (
                              u,
                              platform_message site.title id o.adv.xbox_session_id
                                  (to_uint64 value),
                            ))
                            (present live (OrderedMap.keys o.adv.peers).1),
                      )
                      (ground (arith, e, h, wrote));
              }
            ]
      ]

  state-Changed :
      (live : Live) (now : ℕ) (q : Option (ℤ × ℤ)) → Changed s (update_state site live now q s)
  unfolding update_state get_advertisement state_found
  state-Changed live now none = same_again _ (fails, []) refl
  state-Changed live now (some (id, state)) =
      elim (Option-cases (OrderedMap.load ℤ_discrete s.store id)) [
        | inl e ↦ same_again _ (fails ++ fails, []) (ground (arith, e))
        | inr (p, e) ↦
            let o = found-Owns s v.0 id p v.1 e in
            let same = update_state-same now state o.adv in
            record {
              t = written s p (Advertisement.update_state now state o.adv);
              kept =
                  written-Kept s v id p o e (Advertisement.update_state now state o.adv) same.0
                    same.1;
              run = state_wrote site s v id p e o live now state;
            }
      ]

  changed : (live : Live) (c : Change) → Changed s (change site live c s)
  unfolding change
  changed live (by_update now q) =
      let c = update-Changed now q in
      record { t = c.t; kept = c.kept; run = Answers-quiet c.t _ c.run }
  changed live (by_state now q) = state-Changed live now q
  changed live (by_tags tags id user) =
      let c = tags-Changed tags id user in
      record { t = c.t; kept = c.kept; run = Answers-quiet c.t _ c.run }
  changed live (by_platform_id id value user) = platform-Changed live id value user

-- Whatever Update, UpdateState, UpdateTags, UpdatePlatformSessionID or UpdatePlatformLobbyID does to a
-- valid state when it answers, the state is valid again, the same matches exist, and each has the same
-- users in the same order.
pub change-Kept :
    (site : Site) (live : Live) (c : Change) (s t : Advertisements) (w : Writes × Messages)
    → IsValid s
    → change site live c s ≡ some (w, t)
    → IsValid t × ((j : ℤ) → roster t j ≡ roster s j)
change-Kept site live c s t w v e =
    let d = changed site s v live c in
    let k = Answers-Kept s d.t (change site live c s) d.kept d.run w t e in (k.valid, k.rosters)
