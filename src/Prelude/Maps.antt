-- ===== src/Prelude/Maps.antt =====
-- Association lists that stand for hash maps, by a Boolean equality of the keys.
use fog.Prelude.Tests.{if◌then◌else◌}
use mathlib.Core.Bool.{Bool}
use mathlib.Core.Option.{Option, none, some}
use mathlib.Core.List.{List, [], ◌∷◌}

module _ {ℓ κ} {K : Type ℓ} {V : Type κ} (same : K → K → Bool) where
  abbrev pub find : K → List (K × V) → Option V
  find k [] = none
  find k ((j, v) ∷ rest) = let later = find k rest in if same j k then some v else later

  abbrev pub put : K → V → List (K × V) → List (K × V)
  put k v [] = (k, v) ∷ []
  put k v ((j, old) ∷ rest) =
      let later = put k v rest in if same j k then (j, v) ∷ rest else (j, old) ∷ later

  abbrev pub drop : K → List (K × V) → List (K × V)
  drop k [] = []
  drop k ((j, v) ∷ rest) = let later = drop k rest in if same j k then rest else (j, v) ∷ later
