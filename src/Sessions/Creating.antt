-- ===== src/Sessions/Creating.antt =====
-- server/internal/models/baseSession.go and session.go: when CreateSession returns, and what it leaves.
use Prim.Native.String.{String}
use fragua_age.Prelude.{
  ℕ, zero, suc, ◌+◌, ◌<◌, ◌≡◌, ◌≢◌, refl, ◌∙◌, ap, subst, inl, inr, Bool, true, false, not, ◌||◌,
  Option, none, some, [], arith, is_some, Option-cases,
}
use fragua_age.Prelude.Int.{ℤ, String_discrete}
use fragua_age.GoMap
use fragua_age.GoMap.{get-set}
use fragua_age.SafeMap
use fragua_age.SafeMap.Refinement.{IsSynced}
use fragua_age.Sessions.{
  BaseSession, BaseSessions, create_round, create_loop, started, create_session, get_at, get,
  update_heap, MainSessions, SessionData, generate_session_id, with_id, create,
}

module _ {T D : Type 0} (dec : Discrete T) where
  -- The pointer that is stored under an id.
  abbrev pub pointer : BaseSessions T D → T → Option ℕ
  pointer s id = GoMap.get dec s.store.wo id

  -- No writer is in its critical section; every stored pointer was handed out and points to a session with the id
  -- under which it is stored.
  pub record IsValid (s : BaseSessions T D) : Type 0 where
    pub synced : IsSynced s.store
    pub below : (id : T) (p : ℕ) → pointer s id ≡ some p → p < s.next
    pub owned :
        (id : T) (p : ℕ)
        → pointer s id ≡ some p
        → (sess : BaseSession T D) × (s.heap p ≡ some sess) × (sess.id ≡ id)

  -- One of the next `fuel` draws is the id of no session.
  abbrev pub draws_fresh : ℕ → (ℕ → T) → ℕ → BaseSessions T D → Bool
  draws_fresh zero draws k s = false
  draws_fresh (suc fuel) draws k s =
      not (is_some (pointer s (draws k))) || draws_fresh fuel draws (suc k) s

  abbrev allocated : T → ℕ → D → BaseSessions T D → BaseSessions T D
  allocated id exp value s = record s {
    heap = update_heap s.heap s.next (record { id = id; expiry = exp; session_data = value });
    next = suc s.next;
  }

  abbrev stored : T → ℕ → D → BaseSessions T D → BaseSessions T D
  stored id exp value s = record (allocated id exp value s) {
    store = record {
      wo = GoMap.set dec s.store.wo id s.next;
      ro = GoMap.set dec s.store.wo id s.next;
    };
  }

  round_taken :
      (id : T) (exp : ℕ) (value : D) (s : BaseSessions T D) (p : ℕ)
      → pointer s id ≡ some p
      → create_round dec id exp value s ≡ ((p, true), allocated id exp value s)
  unfolding create_round SafeMap.store
  round_taken id exp value s p e = ground (arith, e)

  round_fresh :
      (id : T) (exp : ℕ) (value : D) (s : BaseSessions T D)
      → pointer s id ≡ none
      → create_round dec id exp value s ≡ ((s.next, false), stored id exp value s)
  unfolding create_round SafeMap.store SafeMap.update_read_only
  round_fresh id exp value s e = ground (arith, e)

  draws_fresh-allocated :
      (fuel : ℕ) (draws : ℕ → T) (k : ℕ) (id : T) (exp : ℕ) (value : D) (s : BaseSessions T D)
      → draws_fresh fuel draws k (allocated id exp value s) ≡ draws_fresh fuel draws k s
  draws_fresh-allocated zero draws k id exp value s = refl
  draws_fresh-allocated (suc fuel) draws k id exp value s =
      ground (arith, draws_fresh-allocated fuel draws (suc k) id exp value s)

  loop-returns :
      (fuel : ℕ) (draws : ℕ → T) (k exp : ℕ) (value : D) (s : BaseSessions T D)
      → is_some (create_loop dec fuel draws k exp value s) ≡ draws_fresh fuel draws k s
  unfolding create_loop
  loop-returns zero draws k exp value s = refl
  loop-returns (suc fuel) draws k exp value s = elim (Option-cases (pointer s (draws k))) [
    | inl n ↦ ground (arith, n, round_fresh (draws k) exp value s n)
    | inr (p, e) ↦ ground (
      arith,
      e,
      round_taken (draws k) exp value s p e,
      loop-returns fuel draws (suc k) exp value (allocated (draws k) exp value s),
      draws_fresh-allocated fuel draws (suc k) (draws k) exp value s,
    )
  ]

  -- CreateSession has returned after `fuel` rounds of its loop exactly if one of the first `fuel` ids that it
  -- draws is the id of no session.
  pub create_session-returns :
      (fuel : ℕ) (draws : ℕ → T) (now : ℕ) (value : D) (s : BaseSessions T D)
      → is_some (create_session dec fuel draws now value s) ≡ draws_fresh fuel draws 0 s
  unfolding create_session started
  create_session-returns fuel draws now value s =
      elim (Option-cases (create_loop dec fuel draws 0 (now + s.expiry) value s)) [
        | inl n ↦ ground (arith, n, loop-returns fuel draws 0 (now + s.expiry) value s)
        | inr (r, e) ↦ ground (arith, e, loop-returns fuel draws 0 (now + s.expiry) value s)
      ]

  allocated-IsValid :
      (id : T) (exp : ℕ) (value : D) (s : BaseSessions T D)
      → IsValid s
      → IsValid (allocated id exp value s)
  allocated-IsValid id exp value s v = record {
    synced = v.synced;
    below = λ i p e. omega (arith, v.below i p e);
    owned = λ i p e.
        let (sess, at, same) = v.owned i p e in (sess, ground (arith, at, v.below i p e), same);
  }

  get-allocated :
      (id : T) (exp : ℕ) (value : D) (s : BaseSessions T D) (i : T)
      → IsValid s
      → get dec i (allocated id exp value s) ≡ get dec i s
  unfolding get get_at SafeMap.load
  get-allocated id exp value s i v = elim (Option-cases (pointer s i)) [
    | inl n ↦ ground (arith, n, ap (λ m. GoMap.get dec m i) v.synced)
    | inr (p, e) ↦ ground (arith, e, ap (λ m. GoMap.get dec m i) v.synced, v.below i p e)
  ]

  -- What CreateSession leaves that stores a session under the draw number `index`.
  pub record Created (draws : ℕ → T) (exp : ℕ) (value : D) (s t : BaseSessions T D) : Type 0 where
    pub index : ℕ
    pub valid : IsValid t
    pub new : pointer s (draws index) ≡ none
    pub found :
        get dec (draws index) t
        ≡ some (record { id = draws index; expiry = exp; session_data = value })
    pub others : (i : T) → i ≢ draws index → get dec i t ≡ get dec i s

  stored-Created :
      (draws : ℕ → T) (k exp : ℕ) (value : D) (s : BaseSessions T D)
      → IsValid s
      → pointer s (draws k) ≡ none
      → Created draws exp value s (stored (draws k) exp value s)
  unfolding get get_at SafeMap.load
  stored-Created draws k exp value s v n =
      let id = draws k in
      let set = λ (i : T). get-set dec s.store.wo id i s.next in
      record {
        index = k;
        valid = record {
          synced = refl;
          below = λ i p e. elim (dec id i) [
            | yes h ↦ ground (arith, e, set i, h)
            | no h ↦ ground (arith, v.below i p (ground (arith, e, set i, h)))
          ];
          owned = λ i p e. elim (dec id i) [
            | yes h ↦ (
              record { id = id; expiry = exp; session_data = value },
              ground (arith, e, set i, h),
              h,
            )
            | no h ↦
                let before : pointer s i ≡ some p = ground (arith, e, set i, h) in
                let (sess, at, same) = v.owned i p before in
                (sess, ground (arith, at, v.below i p before), same)
          ];
        };
        new = n;
        found = ground (arith, set id);
        others = λ i h. elim (Option-cases (pointer s i)) [
          | inl m ↦ ground (arith, m, set i, h, ap (λ m. GoMap.get dec m i) v.synced)
          | inr (p, e) ↦
              ground (arith, e, set i, h, ap (λ m. GoMap.get dec m i) v.synced, v.below i p e)
        ];
      }

  loop-Created :
      (fuel : ℕ) (draws : ℕ → T) (k exp : ℕ) (value : D) (s t : BaseSessions T D) (p : ℕ)
      → IsValid s
      → create_loop dec fuel draws k exp value s ≡ some (p, t)
      → Created draws exp value s t
  unfolding create_loop
  loop-Created zero draws k exp value s t p v r = absurd (ground (arith, r))
  loop-Created (suc fuel) draws k exp value s t p v r = elim (Option-cases (pointer s (draws k))) [
    | inl n ↦
        let same : stored (draws k) exp value s ≡ t =
          ground (arith, r, round_fresh (draws k) exp value s n) in
        subst (Created draws exp value s) same (stored-Created draws k exp value s v n)
    | inr (q, e) ↦
        let c =
          loop-Created fuel draws (suc k) exp value (allocated (draws k) exp value s) t p
            (allocated-IsValid (draws k) exp value s v)
            (ground (arith, r, round_taken (draws k) exp value s q e)) in
        record {
          index = c.index;
          valid = c.valid;
          new = c.new;
          found = c.found;
          others = λ i h. c.others i h ∙ get-allocated (draws k) exp value s i v;
        }
  ]

  -- Whenever CreateSession returns, from valid sessions, it has stored a session with its data and with a full time
  -- to live under one of the ids that it drew, which was the id of no session before. Every other id
  -- still yields what it yielded, and the sessions are valid.
  pub create_session-Created :
      (fuel : ℕ) (draws : ℕ → T) (now : ℕ) (value : D) (s t : BaseSessions T D) (p : ℕ)
      → IsValid s
      → create_session dec fuel draws now value s ≡ some (p, t)
      → Created draws (now + s.expiry) value s t
  unfolding create_session started get get_at SafeMap.load
  create_session-Created fuel draws now value s t p v r =
      elim (Option-cases (create_loop dec fuel draws 0 (now + s.expiry) value s)) [
        | inl n ↦ absurd (ground (arith, n, r))
        | inr ((q, u), e) ↦
            let c = loop-Created fuel draws 0 (now + s.expiry) value s u q v e in
            let same : record u { sweeper_task_started = true } ≡ t = ground (arith, e, r) in
            subst (Created draws (now + s.expiry) value s) same (record {
              index = c.index;
              valid = record {
                synced = c.valid.synced;
                below = c.valid.below;
                owned = c.valid.owned;
              };
              new = c.new;
              found = c.found;
              others = c.others;
            })
      ]

  -- a generator that yields the same id on every call
  draws_fresh-constant :
      (fuel : ℕ) (id : T) (k : ℕ) (s : BaseSessions T D)
      → draws_fresh (suc fuel) (λ _. id) k s ≡ not (is_some (pointer s id))
  draws_fresh-constant zero id k s = ground arith
  draws_fresh-constant (suc fuel) id k s = ground (arith, draws_fresh-constant fuel id (suc k) s)

is_some-with_id : (id : String) (r : Option (ℕ × MainSessions)) → is_some (with_id id r) ≡ is_some r
is_some-with_id id none = refl
is_some-with_id id (some r) = refl

-- MainSessions.Create has returned after one round of CreateSession's loop if the id that it has generated is the id
-- of no session; otherwise it has not returned after any number of rounds.
pub create-returns :
    (fuel : ℕ) (draw : ℕ → ℕ) (now : ℕ) (user_id : ℤ) (version : ℕ) (s : MainSessions)
    → is_some (create (suc fuel) draw now user_id version s)
      ≡ not (is_some (pointer String_discrete s (generate_session_id draw)))
unfolding create
create-returns fuel draw now user_id version s =
    let id = generate_session_id draw in
    let value : SessionData = record {
      id = id;
      client_lib_version = version;
      user_id = user_id;
      message_chan = [];
    } in
    is_some-with_id id _
    ∙ create_session-returns String_discrete (suc fuel) (λ _. id) now value s
    ∙ draws_fresh-constant String_discrete fuel id 0 s
