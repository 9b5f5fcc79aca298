-- ===== src/Advertisements/Search.antt =====
-- server/internal/models/advertisement.go: finding matches. An `int` is an integer of 64 bits, so a sum
-- of two that are not negative is negative when it reaches 2^63.
pub mod Pages
pub mod Users
use fragua_age.Prelude.{
  ℕ, suc, ◌+◌, ◌-◌, ◌^◌, Bool, true, false, not, ◌||◌, Option, none, some, List, [], ◌∷◌, map, take,
  drop, length, ◌==◌, leb, ltb, is_some, if◌then◌else◌,
}
use fragua_age.Prelude.Int.{ℤ, pos, negsuc, ℤ_discrete, eq_ℤ}
use fragua_age.OrderedMap
use fragua_age.Json.{Json, array}
use fragua_age.Game.{Title}
use fragua_age.BattleServer.{BattleServers}
use fragua_age.Peer.{Peer}
use fragua_age.Advertisement
use fragua_age.Advertisement.{Advertisement}
use fragua_age.Advertisements.{Advertisements, M, pure, ◌>>=◌, deref}

-- The encoding of one match, appended.
append_encoded : Option (List Json) → List Json → M (List Json)
append_encoded none rest s = none
append_encoded (some e) rest s = some (array e ∷ rest, s)

-- The loop of LockedFindAdvertisementsEncoded over the pointers of the map: where `pre_matches_locking` is
-- not set, the code does not call `matches`.
module _ (zero_peer : Peer) (title : Title) (battle_servers : BattleServers)
    (pre_matches_locking : Bool) (matches : Advertisement → Bool) where
  collect : List ℕ → M (List Json)
  unfolding deref append_encoded
  collect [] = pure []
  collect (p ∷ ps) =
      let rest = collect ps in
      do
        adv ← deref p
        if not pre_matches_locking || matches adv
            then (do
              others ← rest
              append_encoded (Advertisement.encode zero_peer title battle_servers adv) others)
            else rest

max_int : ℕ
max_int = 2 ^ 63

-- The slice that is returned: `none` is a slice out of bounds.
unfoldable pub page : {A : Type 0} → ℤ → ℤ → List A → Option (List A)
unfolding max_int
page count (negsuc _) res = none
page count (pos offset) res = if leb (length res) offset then some [] else elim count [
  | negsuc _ ↦ none
  | pos n ↦
      let n' = if n == 0 then length res else n in
      if ltb (n' + offset) max_int
      then (let end_ = if ltb (length res) (n' + offset) then length res else n' + offset in
          some (take (end_ - offset) (drop offset res)))
      else none
]

slice_result : Option (List Json) → M (List Json)
slice_result none s = none
slice_result (some js) s = some (js, s)

-- LockedFindAdvertisementsEncoded
unfoldable pub locked_find_advertisements_encoded :
    Peer → BattleServers → Title → ℤ → ℤ → Bool → (Advertisement → Bool) → M (List Json)
unfolding collect page slice_result
locked_find_advertisements_encoded zero_peer battle_servers title count offset pre matches s =
    (do
      res ←
          collect zero_peer title battle_servers pre matches
            (OrderedMap.values ℤ_discrete 0 s.store).1
      slice_result (page count offset res))
      s

-- UnsafeFirstAdvertisement over the pointers of the map
first_of : (Advertisement → Bool) → List ℕ → M (Option ℕ)
unfolding deref
first_of matches [] = pure none
first_of matches (p ∷ ps) =
    let rest = first_of matches ps in do adv ← deref p; if matches adv then pure (some p) else rest

unfoldable pub unsafe_first_advertisement : (Advertisement → Bool) → M (Option ℕ)
unfolding first_of
unsafe_first_advertisement matches s = first_of matches (OrderedMap.values ℤ_discrete 0 s.store).1 s

-- the loop over the keys of the peers
unfoldable pub any_user : ℤ → List ℤ → Bool
any_user user [] = false
any_user user (k ∷ ks) = let rest = any_user user ks in if eq_ℤ k user then true else rest

abbrev pub has_user : ℤ → Advertisement → Bool
has_user user adv = any_user user (OrderedMap.keys adv.peers).1

-- GetUserAdvertisement
unfoldable pub get_user_advertisement : ℤ → M (Option ℕ)
unfolding unsafe_first_advertisement any_user
get_user_advertisement user = unsafe_first_advertisement (has_user user)
