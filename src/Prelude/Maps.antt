-- ===== src/Prelude/Maps.antt =====
-- `BTreeMap<String, String>` as an association list. The program looks keys up and tests all
-- entries, so the order of the entries is not observed.
use mathlib.Core.Path.{◌≡◌, refl}
use mathlib.Core.List.{List, [], ◌∷◌}
use mathlib.Core.Option.{Option, none, some}
use native.Mathlib.Omega.{arith}
use hypr_pilot.Prelude.Tests.{if◌then◌else◌}
use hypr_pilot.Prelude.Texts.{Text, eq_text, eq_text_iff}

abbrev pub Fields : Type 0
Fields = List (Text × Text)

-- `fields.get(k)`
unfoldable pub get : Fields → Text → Option Text
get [] k = none
get ((j, v) ∷ m) k = if eq_text j k then some v else get m k

-- `fields.insert(k, v)`
unfoldable pub insert : Fields → Text → Text → Fields
insert [] k v = (k, v) ∷ []
insert ((j, w) ∷ m) k v = if eq_text j k then (k, v) ∷ m else (j, w) ∷ insert m k v

pub get-insert :
    (m : Fields) (k v j : Text) → get (insert m k v) j ≡ (if eq_text k j then some v else get m j)
unfolding get insert
get-insert [] k v j = refl
get-insert ((i, w) ∷ m) k v j =
    ground (arith, get-insert m k v j, eq_text_iff i k, eq_text_iff i j, eq_text_iff k j)
