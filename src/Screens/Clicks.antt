-- ===== src/Screens/Clicks.antt =====
-- When the action behind a confirmation runs.
use sentinel_edr.Common.{
  ℕ, suc, ◌+◌, ◌≡◌, refl, Bool, true, false, ◌&&◌, List, [], ◌∷◌, if◌then◌else◌, arith,
}
use sentinel_edr.Screens.Confirm.{
  Input, arm, confirm, cancel, fired, initial, set_armed, step, acts, runs,
}

abbrev pub starts_confirm : List Input → Bool
starts_confirm (confirm ∷ is) = true
starts_confirm _ = false

abbrev pub is_arm : Input → Bool
is_arm arm = true
is_arm _ = false

-- The confirming clicks that come directly after an arming click.
abbrev pub confirmed : List Input → ℕ
confirmed [] = 0
confirmed (i ∷ is) =
    let rest = confirmed is in if is_arm i && starts_confirm is then suc rest else rest

abbrev now : Bool → ℕ
now b = if b then 1 else 0

runs_from :
    (is : List Input) (b : Bool)
    → runs is (record { armed = b; timer = b }) ≡ now (b && starts_confirm is) + confirmed is
unfolding runs step acts set_armed
runs_from [] true = refl
runs_from [] false = refl
runs_from (arm ∷ is) true = ground (arith, runs_from is true)
runs_from (arm ∷ is) false = ground (arith, runs_from is true)
runs_from (confirm ∷ is) true = omega (arith, runs_from is false)
runs_from (confirm ∷ is) false = omega (arith, runs_from is false)
runs_from (cancel ∷ is) true = omega (arith, runs_from is false)
runs_from (cancel ∷ is) false = omega (arith, runs_from is false)
runs_from (fired ∷ is) true = omega (arith, runs_from is false)
runs_from (fired ∷ is) false = omega (arith, runs_from is false)

-- Over every order of clicks and expiries, the action runs exactly at the confirming clicks that
-- come directly after an arming click, with no cancel, no confirmation and no expiry between.
pub runs-confirmed : (is : List Input) → runs is initial ≡ confirmed is
runs-confirmed is = omega (arith, runs_from is false)
