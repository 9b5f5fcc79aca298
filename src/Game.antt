-- ===== src/Game.antt =====
-- common/game: the titles that the server runs.
use fragua_age.Prelude.{Bool, true, false}

pub data Title : Type 0 where
  aoe1 aoe2 aoe3 aoe4 aom : Title

-- gameId == game.AoE4
abbrev pub is_aoe4 : Title → Bool
is_aoe4 aoe4 = true
is_aoe4 _ = false

-- gameId == game.AoE2 || gameId == game.AoM || gameId == game.AoE4
abbrev pub has_platform_lobby : Title → Bool
has_platform_lobby aoe2 = true
has_platform_lobby aom = true
has_platform_lobby aoe4 = true
has_platform_lobby _ = false
