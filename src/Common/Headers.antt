-- ===== src/Common/Headers.antt =====
-- The header map of the `http` crate as the program uses it: the values with their names, names in lower case,
-- in order.
use Prim.Native.Nat.{ℕ}
use mathlib.Core.Bool.{Bool, ◌&&◌, ◌||◌}
use mathlib.Core.Option.{Option, none, some}
use mathlib.Core.List.{List, [], ◌∷◌}
use cachic.Common.Tests.{leb, ◌==◌, if◌then◌else◌}
use cachic.Common.Lists.{all}
use cachic.Common.Text.{text_eq}

abbrev pub HeaderMap : Type 0
HeaderMap = List (List ℕ × List ℕ)

-- `get`: the first value of a name.
unfoldable pub header_value : List ℕ → HeaderMap → Option (List ℕ)
header_value name [] = none
header_value name ((n, v) ∷ rest) = if text_eq n name then some v else header_value name rest

-- `get_all`.
unfoldable pub header_values : List ℕ → HeaderMap → List (List ℕ)
header_values name [] = []
header_values name ((n, v) ∷ rest) =
    let more = header_values name rest in if text_eq n name then v ∷ more else more

abbrev pub is_visible : ℕ → Bool
is_visible c = (leb 32 c && leb c 126) || c == 9

-- `to_str().ok()`: visible ASCII only.
unfoldable pub to_str : List ℕ → Option (List ℕ)
to_str v = if all is_visible v then some v else none
