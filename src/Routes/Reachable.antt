-- ===== src/Routes/Reachable.antt =====
-- The matches of a game over any series of requests to the match routes.
use Prim.Native.String.{String}
use fragua_age.Prelude.{ℕ, ◌≡◌, sym, ◌∙◌, ◌⊎◌, true, ap, subst, false, Option, none, some, arith}
use fragua_age.Prelude.Int.{ℤ, ℤ_discrete}
use fragua_age.OrderedMap
use fragua_age.Game.{is_aoe4}
use fragua_age.BattleServer.{Request}
use fragua_age.Advertisement.{Advertisement}
use fragua_age.Advertisements.{Advertisements, initial}
use fragua_age.Advertisements.Valid.{IsValid, roster, written, found-Owns, initial-IsValid}
use fragua_age.Advertisements.Hosting.{HostRequest, Formats, Draws}
use fragua_age.Advertisements.Hosting.Fresh.{SomeFree}
use fragua_age.Advertisements.Writing.{written-Kept}
use fragua_age.Advertisements.Presence.{is_in, OneMatch}
use fragua_age.Routes.{Site, Writes}
use fragua_age.Routes.Previous.{Handled, unless_aoe4}
use fragua_age.Routes.Membership.{JoinRequest, join, leave, host}
use fragua_age.Routes.Membership.Joining.{join-Handled}
use fragua_age.Routes.Membership.Departing.{leave-Handled}
use fragua_age.Routes.Membership.Opening.{handled}
use fragua_age.Routes.Changes.{Live, Messages}
use fragua_age.Routes.Changes.Rosters.{Change, change, change-Kept, same_state}

module _ (site : Site) (live : Live) where
  -- One request that is answered, or a write to a match before a panic.
  pub data Step (s : Advertisements) : Advertisements → Type 0 where
    leaves :
        (id : Option ℤ) (user : ℤ) (w : Writes) (t : Advertisements)
        → leave id user s ≡ some (w, t)
        → Step s t
    joins :
        (r : Request) (q : Option JoinRequest) (user : ℤ) (w : Writes) (t : Advertisements)
        → join site r q user s ≡ some (w, t)
        → Step s t
    hosts :
        (r : Request) (formats : Formats) (draws : Draws) (now : ℕ) (region : String)
        (q : Option HostRequest) (w : Writes) (t : Advertisements)
        → SomeFree s draws.ids
        → host site r formats draws now region q s ≡ some (w, t)
        → Step s t
    changes :
        (c : Change) (w : Writes × Messages) (t : Advertisements)
        → change site live c s ≡ some (w, t)
        → Step s t
    torn :
        (id : ℤ) (p : ℕ) (adv adv' : Advertisement)
        → OrderedMap.load ℤ_discrete s.store id ≡ some p
        → s.heap p ≡ some adv
        → adv'.id ≡ adv.id
        → adv'.peers ≡ adv.peers
        → Step s (written s p adv')

  pub data Reachable : Advertisements → Type 0 where
    started : Reachable initial
    stepped : (s t : Advertisements) → Reachable s → Step s t → Reachable t

  -- A valid state, in which only for AoE4 a user may be in two matches.
  record Sound (s : Advertisements) : Type 0 where
    valid : IsValid s
    one : is_aoe4 site.title ≡ false → OneMatch s

  Handled-Sound :
      (s t : Advertisements) (m : Option (Writes × Advertisements)) (w : Writes)
      → Sound s
      → Handled site.title s m
      → m ≡ some (w, t)
      → Sound t
  Handled-Sound s t m w sound h e =
      let same = same_state m h.writes w h.t t h.run e in
      record {
        valid = subst IsValid same h.valid;
        one = λ title. subst OneMatch same (h.one title (sound.one title));
      }

  OneMatch-rosters :
      (s t : Advertisements) → ((j : ℤ) → roster t j ≡ roster s j) → OneMatch s → OneMatch t
  unfolding is_in
  OneMatch-rosters s t same one u i j hi hj =
      one u i j (ground (arith, same i, hi)) (ground (arith, same j, hj))

  Step-Sound : (s t : Advertisements) → Sound s → Step s t → Sound t
  Step-Sound s t sound (leaves id user w _ e) =
      Handled-Sound s t _ w sound (leave-Handled site.title id user s sound.valid) e
  Step-Sound s t sound (joins r q user w _ e) =
      Handled-Sound s t _ w sound (join-Handled site r q user s sound.valid) e
  Step-Sound s t sound (hosts r formats draws now region q w _ f e) =
      Handled-Sound s t _ w sound (handled site r formats draws now region q s sound.valid f) e
  Step-Sound s t sound (changes c w _ e) =
      let (valid, same) = change-Kept site live c s t w sound.valid e in
      record { valid = valid; one = λ title. OneMatch-rosters s t same (sound.one title) }
  Step-Sound s t sound (torn id p adv adv' load at same peers) =
      let o = found-Owns s sound.valid.0 id p sound.valid.1 load in
      let same_adv : adv ≡ o.adv = ap (λ x. elim x [ none ↦ adv | some y ↦ y ]) (sym at ∙ o.at) in
      let k =
        written-Kept s sound.valid id p o load adv' (same ∙ ap (λ x. x.id) same_adv)
          (peers ∙ ap (λ x. x.peers) same_adv) in
      record { valid = k.valid; one = λ title. OneMatch-rosters s _ k.rosters (sound.one title) }

  initial-Sound : Sound initial
  unfolding initial is_in roster
  initial-Sound = record {
    valid = initial-IsValid;
    one = λ title u i j hi hj. absurd (ground (arith, hi));
  }

  Reachable-Sound : (s : Advertisements) → Reachable s → Sound s
  Reachable-Sound _ started = initial-Sound
  Reachable-Sound t (stepped s _ r step) = Step-Sound s t (Reachable-Sound s r) step

  -- Any series of requests to Leave, Join, Host, Update, UpdateState, UpdateTags and updatePlatformID
  -- from the start, with writes to a match that a panic cut short, leads to a valid state for every
  -- title, and unless the title is AoE4 no user is then in two matches. Of a call of Host, one of the
  -- drawn ids has to be the id of no match.
  pub Reachable-OneMatch :
      (s : Advertisements) → Reachable s → IsValid s × (is_aoe4 site.title ≡ true ⊎ OneMatch s)
  Reachable-OneMatch s r =
      let sound = Reachable-Sound s r in (sound.valid, unless_aoe4 site.title _ sound.one)
