-- ===== src/Advertisements.antt =====
-- server/internal/models/advertisement.go, MainAdvertisements: the matches of a game. The map holds
-- pointers, and a match is changed through its pointer: a pointer is a number, 0 is nil, and `heap`
-- says what each points to. An operation is an action of the state monad with panics, `none`: a nil
-- dereference, or an index out of range. Each runs inside the critical section in which it is called.
pub mod Valid
pub mod Peers
pub mod Leaving
pub mod Presence
pub mod Writing
pub mod Search
pub mod Hosting
use Prim.Native.String.{String}
use fragua_age.Prelude.{
  ℕ, suc, ◌+◌, ◌-◌, ◌≡◌, ap, Bool, true, false, Option, none, some, List, [], ◌∷◌, map, take, drop,
  length, ◌==◌, leb, ltb, if◌then◌else◌,
}
use fragua_age.Prelude.Int.{ℤ, pos, eq_ℤ, ℤ_discrete}
use fragua_age.GoMap
use fragua_age.OrderedMap
use fragua_age.OrderedMap.{OrderedMap}
use fragua_age.SafeMap
use fragua_age.Json.{Json, array, number_to_bool}
use fragua_age.Game.{Title}
use fragua_age.BattleServer.{BattleServers}
use fragua_age.Peer
use fragua_age.Peer.{Peer}
use fragua_age.Advertisement
use fragua_age.Advertisement.{Advertisement, UpdateRequest}

pub record Advertisements : Type 0 where
  pub store : OrderedMap ℤ ℕ
  pub heap : ℕ → Option Advertisement
  -- the next pointer that an allocation returns
  pub next : ℕ

abbrev pub M : Type 0 → Type 0
M A = Advertisements → Option (A × Advertisements)

abbrev pub pure : {A : Type 0} → A → M A
pure a s = some (a, s)

abbrev pub resume :
    {A B : Type 0} → (A → M B) → Option (A × Advertisements) → Option (B × Advertisements)
resume f none = none
resume f (some (a, s)) = f a s

infixl 5 ◌>>=◌ ◌>>◌
abbrev pub ◌>>=◌ : {A B : Type 0} → M A → (A → M B) → M B
◌>>=◌ m f s = elim (m s) [ none ↦ none | some (a, s') ↦ f a s' ]

abbrev pub ◌>>◌ : {B : Type 0} → M (Unit {0}) → M B → M B
m >> k = m >>= λ _. k

-- A step of a do block that does not panic.
pub run-bind :
    {A B : Type 0} (m : M A) (f : A → M B) (s s' : Advertisements) (a : A)
    → m s ≡ some (a, s')
    → (m >>= f) s ≡ f a s'
run-bind m f s s' a e = ap (resume f) e

-- Initialize
unfoldable pub initial : Advertisements
unfolding OrderedMap.new_ordered_map
initial = record { store = OrderedMap.new_ordered_map; heap = λ p. none; next = 1 }

-- reading and writing through a pointer
unfoldable pub deref : ℕ → M Advertisement
deref p s = elim (s.heap p) [ none ↦ none | some adv ↦ some (adv, s) ]

abbrev pub update_heap : (ℕ → Option Advertisement) → ℕ → Advertisement → ℕ → Option Advertisement
update_heap heap p adv q = if p == q then some adv else heap q

unfoldable pub assign : ℕ → Advertisement → M (Unit {0})
assign p adv s = some (tt, record s { heap = update_heap s.heap p adv })

unfoldable pub alloc : Advertisement → M ℕ
alloc adv s = some (s.next, record s { heap = update_heap s.heap s.next adv; next = suc s.next })

-- GetAdvertisement
unfoldable pub get_advertisement : ℤ → M (Option ℕ)
get_advertisement id s = some (OrderedMap.load ℤ_discrete s.store id, s)

-- adv.GetPeers().Store(peer.GetUserId(), peer, …) behind a pointer that may be nil
new_peer_at : Option ℕ → Peer → M (Option Peer)
unfolding deref assign
new_peer_at none peer = pure none
new_peer_at (some p) peer = do
  adv ← deref p
  let stored = OrderedMap.store ℤ_discrete peer.user_id peer (some (λ _. false)) adv.peers
  assign p (record adv { peers = stored.1 })
  pure (some stored.0.1)

-- UnsafeNewPeer: the stored peer, or nil if there is no such match
unfoldable pub unsafe_new_peer : ℤ → String → ℤ → ℤ → ℤ → ℤ → ℤ → M (Option Peer)
unfolding get_advertisement new_peer_at
unsafe_new_peer advertisement_id advertisement_ip user_id user_stat_id party race team = do
  found ← get_advertisement advertisement_id
  new_peer_at found
      (Peer.new_peer advertisement_id advertisement_ip user_id user_stat_id party race team)

delete_id : ℤ → M (Unit {0})
delete_id id s = elim (OrderedMap.delete ℤ_discrete id s.store) [
  | none ↦ none
  | some (_, store) ↦ some (tt, record s { store = store })
]

-- UnsafeDelete
unfoldable pub unsafe_delete : ℕ → M (Unit {0})
unfolding deref delete_id
unsafe_delete p = do adv ← deref p; delete_id adv.id

store_peers : ℕ → Advertisement → Option (Bool × OrderedMap ℤ Peer) → M Bool
unfolding assign
store_peers p adv none s = none
store_peers p adv (some (existed, peers)) s =
    (do assign p (record adv { peers = peers }); pure existed) s

-- adv.GetPeers().Delete(userId)
delete_peer : ℕ → ℤ → M Bool
unfolding deref store_peers
delete_peer p user_id = do
  adv ← deref p
  store_peers p adv (OrderedMap.delete ℤ_discrete user_id adv.peers)

delete_if_empty : ℕ → M Bool
unfolding deref unsafe_delete
delete_if_empty p = do
  adv ← deref p
  if OrderedMap.len adv.peers == 0 then (do unsafe_delete p; pure true) else pure true

remove_peer_at : Option ℕ → ℤ → M Bool
unfolding delete_peer delete_if_empty
remove_peer_at none user_id = pure false
remove_peer_at (some p) user_id = do
  existed ← delete_peer p user_id
  if existed then delete_if_empty p else pure false

-- UnsafeRemovePeer
unfoldable pub unsafe_remove_peer : ℤ → ℤ → M Bool
unfolding get_advertisement remove_peer_at
unsafe_remove_peer advertisement_id user_id = do
  found ← get_advertisement advertisement_id
  remove_peer_at found user_id
