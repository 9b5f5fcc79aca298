-- ===== src/Json.antt =====
-- server/internal/http.go and boolInt.go: the values that responses are made of (`internal.A` is
-- []any), and the numbers that stand for Booleans in them.
use Prim.Native.String.{String}
use fragua_age.Prelude.{ℕ, Bool, true, false, not, List, [], ◌∷◌}
use fragua_age.Prelude.Int.{ℤ, pos, eq_ℤ}

mutual
  pub data Json : Type 0 where
    null : Json
    num : ℤ → Json
    str : String → Json
    arr : Items → Json

  pub data Items : Type 0 where
    end : Items
    item : Json → Items → Items

abbrev pub items : List Json → Items
items [] = end
items (j ∷ js) = item j (items js)

-- A nested internal.A.
abbrev pub array : List Json → Json
array js = arr (items js)

abbrev pub nat : ℕ → Json
nat n = num (pos n)

-- NumberToBool
unfoldable pub number_to_bool : ℤ → Bool
number_to_bool value = not (eq_ℤ value (pos 0))

-- NewBoolMappedNumberFromBool, as it is encoded
unfoldable pub bool_number : Bool → Json
bool_number true = nat 1
bool_number false = nat 0
