-- ===== src/Sessions.antt =====
-- server/internal/models/baseSession.go and session.go: the sessions, each behind a pointer in a SafeMap,
-- the sweeper that drops the expired ones, and the channel of messages of a session. Times are numbers
-- of one unit; a call that reads the clock takes the time.
pub mod Creating
pub mod Sweeping
pub mod Receiving
use Prim.Native.String.{String, char_at}
use fragua_age.Prelude.{
  ℕ, zero, suc, ◌+◌, ◌-◌, ◌%◌, ◌^◌, Bool, true, false, ◌&&◌, ◌==◌, Option, none, some, List, [],
  ◌∷◌, ◌++◌, map, length, ltb, if◌then◌else◌,
}
use fragua_age.Prelude.Int.{ℤ, eq_ℤ, String_discrete}
use fragua_age.Json.{Json}
use fragua_age.GoMap.{GoMap}
use fragua_age.SafeMap
use fragua_age.SafeMap.{SafeMap}

-- BaseSession, without the lock
pub record BaseSession (T D : Type 0) : Type 0 where
  pub id : T
  pub expiry : ℕ
  pub session_data : D

-- BaseSessions, with what the pointers in it point to and the next free pointer
pub record BaseSessions (T D : Type 0) : Type 0 where
  pub expiry : ℕ
  pub store : SafeMap T ℕ
  pub heap : ℕ → Option (BaseSession T D)
  pub next : ℕ
  pub sweeper_task_started : Bool

module _ {T D : Type 0} where
  -- NewBaseSessions
  unfoldable pub new_base_sessions : ℕ → BaseSessions T D
  new_base_sessions expiry = record {
    expiry = expiry;
    store = SafeMap.new_safe_map;
    heap = λ p. none;
    next = 0;
    sweeper_task_started = false;
  }

  abbrev pub update_heap :
      (ℕ → Option (BaseSession T D)) → ℕ → BaseSession T D → ℕ → Option (BaseSession T D)
  update_heap heap p sess q = if p == q then some sess else heap q

module _ {T D : Type 0} (dec : Discrete T) where
  -- One round of the loop of CreateSession: the stored pointer, and whether the id existed.
  create_round : T → ℕ → D → BaseSessions T D → (ℕ × Bool) × BaseSessions T D
  create_round id exp value s =
      let info : BaseSession T D = record { id = id; expiry = exp; session_data = value } in
      let (r, store) = SafeMap.store dec id s.next (some (λ _. false)) s.store in
      (r, record s { store = store; heap = update_heap s.heap s.next info; next = suc s.next })

  -- The loop, of at most `fuel` rounds; `draws k` is the result of the call number `k` of idGenFun.
  create_loop : ℕ → (ℕ → T) → ℕ → ℕ → D → BaseSessions T D → Option (ℕ × BaseSessions T D)
  unfolding create_round
  create_loop zero draws k exp value s = none
  create_loop (suc fuel) draws k exp value s =
      let (r, s') = create_round (draws k) exp value s in
      let rest = create_loop fuel draws (suc k) exp value s' in if r.1 then rest else some (r.0, s')

  started : Option (ℕ × BaseSessions T D) → Option (ℕ × BaseSessions T D)
  started none = none
  started (some (p, s)) = some (p, record s { sweeper_task_started = true })

  -- CreateSession: `none` is a loop that has not ended after `fuel` rounds
  unfoldable pub create_session :
      ℕ → (ℕ → T) → ℕ → D → BaseSessions T D → Option (ℕ × BaseSessions T D)
  unfolding create_loop started
  create_session fuel draws now value s =
      started (create_loop fuel draws 0 (now + s.expiry) value s)

  get_at : BaseSessions T D → Option ℕ → Option (BaseSession T D)
  get_at s none = none
  get_at s (some p) = s.heap p

  -- Get
  unfoldable pub get : T → BaseSessions T D → Option (BaseSession T D)
  unfolding get_at
  get id s = get_at s (SafeMap.load dec s.store id)

  unfoldable pub delete : T → BaseSessions T D → BaseSessions T D
  delete id s = record s { store = SafeMap.delete dec id s.store }

  reset_at : ℕ → BaseSessions T D → Option ℕ → BaseSessions T D
  reset_at now s none = s
  reset_at now s (some p) = elim (s.heap p) [
    | none ↦ s
    | some sess ↦ record s { heap = update_heap s.heap p (record sess { expiry = now + s.expiry }) }
  ]

  -- ResetExpiryTimer
  unfoldable pub reset_expiry_timer : ℕ → T → BaseSessions T D → BaseSessions T D
  unfolding reset_at
  reset_expiry_timer now id s = reset_at now s (SafeMap.load dec s.store id)

until : ℕ → ℕ → Option ℕ → ℕ
until expiry now none = expiry
until expiry now (some t) = t - now

module _ {T D : Type 0} where
  -- Values, in the order of a `range`
  unfoldable pub values :
      (GoMap T ℕ → List (T × ℕ)) → BaseSessions T D → List (Option (BaseSession T D))
  values range s = map s.heap (SafeMap.values range s.store)

  expired : ℕ → List (Option (BaseSession T D)) → List T
  expired now [] = []
  expired now (none ∷ l) = expired now l
  expired now (some sess ∷ l) =
      let rest = expired now l in if ltb sess.expiry now then sess.id ∷ rest else rest

  -- the least of the other times of expiry
  earliest : ℕ → List (Option (BaseSession T D)) → Option ℕ
  earliest now [] = none
  earliest now (none ∷ l) = earliest now l
  earliest now (some sess ∷ l) =
      let rest = earliest now l in
      if ltb sess.expiry now
      then rest
      else some
          (elim rest [ none ↦ sess.expiry | some t ↦ if ltb t sess.expiry then t else sess.expiry ])

  -- nextExpiration
  unfoldable pub next_expiration : (GoMap T ℕ → List (T × ℕ)) → ℕ → BaseSessions T D → List T × ℕ
  unfolding values expired earliest until
  next_expiration range now s =
      (expired now (values range s), until s.expiry now (earliest now (values range s)))

  delete_all : Discrete T → List T → BaseSessions T D → BaseSessions T D
  unfolding delete
  delete_all dec [] s = s
  delete_all dec (id ∷ ids) s = delete_all dec ids (delete dec id s)

  -- The ticker of startSweeper: `none` is the panic on a time that is not positive, of NewTicker and of
  -- Reset.
  with_ticker : ℕ → BaseSessions T D → Option (BaseSessions T D × ℕ)
  with_ticker next s = if next == 0 then none else some (s, next)

  -- The start of the sweeper: the time to the first tick.
  unfoldable pub start_sweeper :
      (GoMap T ℕ → List (T × ℕ)) → ℕ → BaseSessions T D → Option (BaseSessions T D × ℕ)
  unfolding next_expiration with_ticker
  start_sweeper range now s = with_ticker (next_expiration range now s).1 s

  -- A tick of the sweeper, with nothing in between: the sessions, and the time to the next tick. The
  -- ticker is reset before the sessions are deleted; after a panic the process is gone.
  unfoldable pub sweep :
      Discrete T → (GoMap T ℕ → List (T × ℕ)) → ℕ → BaseSessions T D → Option (BaseSessions T D × ℕ)
  unfolding next_expiration delete_all with_ticker
  sweep dec range now s =
      let (ids, next) = next_expiration range now s in with_ticker next (delete_all dec ids s)

-- SessionData; the messages that wait in the channel, the oldest first
pub record SessionData : Type 0 where
  pub id : String
  pub client_lib_version : ℕ
  pub user_id : ℤ
  pub message_chan : List Json

abbrev pub chan_cap : ℕ
chan_cap = 100

-- AddMessage: `none` is a call that blocks, since the channel is full
unfoldable pub add_message : Json → SessionData → Option SessionData
add_message message s =
    if ltb (length s.message_chan) chan_cap
    then some (record s { message_chan = s.message_chan ++ message ∷ [] })
    else none

-- What a call of WaitForMessages returns, and the messages that come after it.
pub record Received (M : Type 0) : Type 0 where
  pub ack : ℕ
  pub results : List M
  pub later : List M

module _ {M : Type 0} (cap ack : ℕ) where
  -- `draining`: in the inner loop. Of the messages, `q` are in the channel and `arriving` come while the
  -- call waits, before its timer fires.
  receive : Bool → List M → List M → List M → Received M
  receive draining results (m ∷ q) arriving = receive true (results ++ m ∷ []) q arriving
  receive draining results [] [] =
      if draining && ltb (length results) cap
      then record { ack = (ack + 1) % 2 ^ 64; results = results; later = [] }
      else record { ack = ack; results = results; later = [] }
  receive draining results [] (a ∷ arriving) =
      let rest = receive true (results ++ a ∷ []) [] arriving in
      if draining && ltb (length results) cap
      then record { ack = (ack + 1) % 2 ^ 64; results = results; later = a ∷ arriving }
      else rest

  -- WaitForMessages
  unfoldable pub wait_for_messages : List M → List M → Received M
  unfolding receive
  wait_for_messages q arriving = receive false [] q arriving

-- generateSessionId: the letters from the one of number `j`; `draw` is IntN(36)
session_letters : (ℕ → ℕ) → ℕ → ℕ → String
session_letters draw j zero = ""
session_letters draw j (suc left) =
    String.◌∷◌ (char_at "abcdefghijklmnopqrstuvwxyz0123456789" (draw j))
      (session_letters draw (suc j) left)

unfoldable pub generate_session_id : (ℕ → ℕ) → String
unfolding session_letters
generate_session_id draw = session_letters draw 0 30

-- MainSessions: sessions of five minutes, in seconds
abbrev pub MainSessions : Type 0
MainSessions = BaseSessions String SessionData

unfoldable pub initialize : MainSessions
initialize = new_base_sessions 300

abbrev pub with_id : String → Option (ℕ × MainSessions) → Option (String × MainSessions)
with_id id none = none
with_id id (some (_, s)) = some (id, s)

-- Create: the id is drawn once, before CreateSession
unfoldable pub create : ℕ → (ℕ → ℕ) → ℕ → ℤ → ℕ → MainSessions → Option (String × MainSessions)
unfolding generate_session_id create_session
create fuel draw now user_id client_lib_version s =
    let new_id = generate_session_id draw in
    let sess : SessionData = record {
      id = new_id;
      client_lib_version = client_lib_version;
      user_id = user_id;
      message_chan = [];
    } in
    with_id new_id (create_session String_discrete fuel (λ _. new_id) now sess s)

data_of : Option (BaseSession String SessionData) → Option SessionData
data_of none = none
data_of (some sess) = some sess.session_data

unfoldable pub get_by_id : String → MainSessions → Option SessionData
unfolding data_of
get_by_id id s = data_of (get String_discrete id s)

first_of_user : ℤ → List (Option (BaseSession String SessionData)) → Option SessionData
first_of_user user [] = none
first_of_user user (none ∷ l) = first_of_user user l
first_of_user user (some sess ∷ l) =
    let rest = first_of_user user l in
    if eq_ℤ sess.session_data.user_id user then some sess.session_data else rest

unfoldable pub get_by_user_id :
    (GoMap String ℕ → List (String × ℕ)) → ℤ → MainSessions → Option SessionData
unfolding first_of_user
get_by_user_id range user s = first_of_user user (values range s)
