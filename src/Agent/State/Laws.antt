-- ===== src/Agent/State/Laws.antt =====
-- The map of hypervisor plugins: lookups after an update.
use text.Mathlib.TextPositions.{eq_refl}
use fog.Prelude.{String, ◌≡◌, refl, none, some, [], ◌∷◌, arith, str_eq, eq_iff, if◌then◌else◌}
use fog.Sdk.Types.{Uuid}
use fog.Agent.State.{Plugins, lookup, insert, remove}

pub lookup-insert :
    (j hv : String) (u : Uuid) (l : Plugins)
    → lookup j (insert hv u l) ≡ (if str_eq hv j then some u else lookup j l)
lookup-insert j hv u [] = refl
lookup-insert j hv u ((i, c) ∷ l) =
    ground (arith, eq_iff hv j, eq_iff i hv, eq_iff i j, lookup-insert j hv u l)

pub lookup-insert_self : (hv : String) (u : Uuid) (l : Plugins) → lookup hv (insert hv u l) ≡ some u
lookup-insert_self hv u l = rw (lookup-insert, eq_refl hv)

-- Taking out what was put in anew restores the map.
pub remove-insert :
    (hv : String) (u : Uuid) (l : Plugins) → lookup hv l ≡ none → remove hv (insert hv u l) ≡ l
remove-insert hv u [] fresh = rw (eq_refl hv)
remove-insert hv u ((i, c) ∷ l) fresh = ground (arith, eq_iff i hv, remove-insert hv u l)
