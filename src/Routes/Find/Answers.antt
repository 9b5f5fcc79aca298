-- ===== src/Routes/Find/Answers.antt =====
-- What the searches answer with.
use fragua_age.Prelude.{false, ◌≡◌, sym, ◌∙◌, ap, some, List, [], ◌∷◌}
use fragua_age.Prelude.Int.{ℤ, pos}
use fragua_age.Advertisements.{Advertisements, resume, pure}
use fragua_age.Advertisements.Valid.{IsValid}
use fragua_age.Advertisements.Search.Pages.{search-selected}
use fragua_age.Routes.{Site}
use fragua_age.Routes.Find.{get_advertisements, contains, get_adv_resp}

-- From a valid state the answer of GetAdvertisements does not depend on the ids that are asked for:
-- where the search is told not to lock, it calls no condition.
pub get_advertisements-any :
    (site : Site) (ids ids' : List ℤ) (s : Advertisements)
    → IsValid s
    → get_advertisements site (some ids) s ≡ get_advertisements site (some ids') s
unfolding get_advertisements
get_advertisements-any site ids ids' s (es, v) =
    let all = λ (l : List ℤ).
      search-selected site.zero_peer site.title site.battle_servers (pos 0) (pos 0) false
        (λ adv. contains l adv.id) s es v in
    ap (resume (λ advs. pure (get_adv_resp (pos 0) advs ∷ []))) (all ids ∙ sym (all ids'))
