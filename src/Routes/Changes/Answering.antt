-- ===== src/Routes/Changes/Answering.antt =====
-- The routes that change one match: when they answer, and what they leave as it is.
use fragua_age.Prelude.{
  ℕ, ◌≡◌, inl, inr, Bool, true, not, ◌&&◌, ◌||◌, Option, none, some, [], ◌∷◌, arith, map, is_some,
  Option-cases, Bool-cases,
}
use fragua_age.Prelude.Int.{ℤ, ℤ_discrete, pos, eq_ℤ}
use fragua_age.Json.{num, array}
use fragua_age.OrderedMap
use fragua_age.Game.{Title, has_platform_lobby}
use fragua_age.BattleServer
use fragua_age.Advertisement
use fragua_age.Advertisement.{Advertisement, UpdateRequest, encode_server_name}
use fragua_age.Advertisements.{Advertisements, deref, assign, get_advertisement}
use fragua_age.Advertisements.Valid.{Owns, IsValid, written, found-Owns}
use fragua_age.Routes.{Site, succeeds}
use fragua_age.Routes.Changes.{
  Live, updated, update_reply, update_found, update, all_present, start_message, announce,
  state_found, update_state,
}

-- The name of the match's battle server is known: UnsafeEncode does not panic.
abbrev pub has_server : Site → Advertisement → Bool
has_server site adv = adv.lan || is_some (BattleServer.get site.battle_servers adv.relay_region)

is_some-encode :
    (site : Site) (adv : Advertisement)
    → is_some (Advertisement.encode site.zero_peer site.title site.battle_servers adv)
      ≡ has_server site adv
unfolding Advertisement.encode encode_server_name
is_some-encode site adv = ground arith

pub updated-same :
    (title : Title) (now : ℕ) (q : UpdateRequest) (adv : Advertisement)
    → ((updated title now q adv).id ≡ adv.id)
      × ((updated title now q adv).peers ≡ adv.peers)
      × ((updated title now q adv).lan ≡ adv.lan)
      × ((updated title now q adv).relay_region ≡ adv.relay_region)
unfolding updated Advertisement.update Advertisement.update_state
    Advertisement.update_platform_session_id
updated-same title now q adv = (ground arith, ground arith, ground arith, ground arith)

-- The run panics, or answers in the state.
pub data Answers {A : Type 0} (t : Advertisements) (m : Option (A × Advertisements)) : Type 0 where
  panics : m ≡ none → Answers t m
  answers : (a : A) → m ≡ some (a, t) → Answers t m

module _ (site : Site) (s : Advertisements) (v : IsValid s) (id : ℤ) (p : ℕ)
    (load : OrderedMap.load ℤ_discrete s.store id ≡ some p) (o : Owns s.heap (id, p)) where
  update_returned :
      (now : ℕ) (q : UpdateRequest)
      → is_some (update site now (some (id, q)) s)
        ≡ (not (has_platform_lobby site.title) || has_server site o.adv)
  unfolding update update_found deref assign get_advertisement update_reply
  update_returned now q = ground (
    arith,
    load,
    o.at,
    is_some-encode site (updated site.title now q o.adv),
    updated-same site.title now q o.adv,
  )

  pub update_wrote :
      (now : ℕ) (q : UpdateRequest)
      → Answers (written s p (updated site.title now q o.adv)) (update site now (some (id, q)) s)
  unfolding update update_found deref assign get_advertisement update_reply
  update_wrote now q = elim (Bool-cases (has_platform_lobby site.title)) [
    | inl e ↦
        elim (Option-cases (
          Advertisement.encode site.zero_peer site.title site.battle_servers
            (updated site.title now q o.adv))) [
              | inl n ↦ panics (ground (arith, load, o.at, e, n))
              | inr (encoded, f) ↦
                  answers ((num (pos 0) ∷ array encoded ∷ []) ∷ [])
                    (ground (arith, load, o.at, e, f))
            ]
    | inr e ↦ answers succeeds (ground (arith, load, o.at, e))
  ]

  state_returned :
      (live : Live) (now : ℕ) (state : ℤ)
      → is_some (update_state site live now (some (id, state)) s) ≡ (
          eq_ℤ state (pos 1)
          && (has_server site o.adv
              && all_present site live (OrderedMap.iter ℤ_discrete site.zero_peer o.adv.peers).1))
  unfolding update_state state_found deref assign get_advertisement announce
      Advertisement.update_state
  state_returned live now state =
      ground (arith, load, o.at, is_some-encode site (Advertisement.update_state now state o.adv))

  pub state_wrote :
      (live : Live) (now : ℕ) (state : ℤ)
      → Answers
          (written s p (Advertisement.update_state now state o.adv))
          (update_state site live now (some (id, state)) s)
  unfolding update_state state_found deref assign get_advertisement announce
  state_wrote live now state =
      let changed = Advertisement.update_state now state o.adv in
      let peers = (OrderedMap.iter ℤ_discrete site.zero_peer changed.peers).1 in
      elim (Bool-cases (eq_ℤ changed.state (pos 1))) [
        | inr e ↦ panics (ground (arith, load, o.at, e))
        | inl e ↦
            elim (Option-cases
              (Advertisement.encode site.zero_peer site.title site.battle_servers changed)) [
                | inl n ↦ panics (ground (arith, load, o.at, e, n))
                | inr (encoded, f) ↦ elim (Bool-cases (all_present site live peers)) [
                  | inr n ↦ panics (ground (arith, load, o.at, e, f, n))
                  | inl t ↦
                      answers
                        (
                          succeeds,
                          map
                              (λ (u, _).
                                (u, start_message site live changed.start_time encoded peers))
                              peers,
                        )
                        (ground (arith, load, o.at, e, f, t))
                ]
              ]
      ]

-- The match of an id, as GetAdvertisement finds it.
unfoldable pub match_at : Advertisements → ℤ → Option Advertisement
match_at s id = elim (OrderedMap.load ℤ_discrete s.store id) [ none ↦ none | some p ↦ s.heap p ]

-- From a valid state Update answers without a panic exactly if the match does not exist, if the
-- title's response holds no encoding of the match, or if the match is on a LAN or its battle server
-- is a known one.
update-returns :
    (site : Site) (now : ℕ) (id : ℤ) (q : UpdateRequest) (s : Advertisements)
    → IsValid s
    → is_some (update site now (some (id, q)) s) ≡ elim (match_at s id) [
      | none ↦ true
      | some adv ↦ not (has_platform_lobby site.title) || has_server site adv
    ]
unfolding update update_found get_advertisement match_at
update-returns site now id q s v = elim (Option-cases (OrderedMap.load ℤ_discrete s.store id)) [
  | inl e ↦ ground (arith, e)
  | inr (p, e) ↦
      let o = found-Owns s v.0 id p v.1 e in
      ground (arith, e, o.at, update_returned site s v id p e o now q)
]

-- From a valid state UpdateState answers without a panic exactly if the match does not exist, or if
-- the new state is 1, the match is on a LAN or its battle server is a known one, and every user of the
-- match has a session.
pub update_state-returns :
    (site : Site) (live : Live) (now : ℕ) (id state : ℤ) (s : Advertisements)
    → IsValid s
    → is_some (update_state site live now (some (id, state)) s) ≡ elim (match_at s id) [
      | none ↦ true
      | some adv ↦
          eq_ℤ state (pos 1)
          && (has_server site adv
              && all_present site live (OrderedMap.iter ℤ_discrete site.zero_peer adv.peers).1)
    ]
unfolding update_state state_found get_advertisement match_at
update_state-returns site live now id state s v =
    elim (Option-cases (OrderedMap.load ℤ_discrete s.store id)) [
      | inl e ↦ ground (arith, e)
      | inr (p, e) ↦
          let o = found-Owns s v.0 id p v.1 e in
          ground (arith, e, o.at, state_returned site s v id p e o live now state)
    ]
