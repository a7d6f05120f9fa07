-- ===== src/Triage.antt =====
-- The generated triage of a detection (dashboard/components/ai-triage.tsx). The panel stays mounted
-- while the drawer goes from one detection to another.
mod Tests
use sentinel_edr.Common.{
  ℕ, zero, suc, Bool, true, false, not, ◌||◌, Option, none, some, List, [], ◌∷◌, ◌++◌,
  if◌then◌else◌, ◌===◌, StrictEq, list_same, nat_same, is_some,
}
use sentinel_edr.Common.Text.{Text, codes, decimal}
use sentinel_edr.Calls.{Json, Fetched, result_of, ActionResult, error_or, triage_path}
use sentinel_edr.Pages.{with_status}

-- `out` holds the paths of the calls that no reply has come to.
pub record State : Type 0 where
  pub detection_id : Text
  pub result : Option Json
  pub loading : Bool
  pub err : Option Text
  pub out : List Text

pub data Input : Type 0 where
  show : Text → Input
  analyze : Input
  -- the reply to a call, by its place in `out`
  reply : ℕ → Fetched → Input

abbrev pub without : ℕ → List Text → List Text
without n [] = []
without zero (p ∷ ps) = ps
without (suc n) (p ∷ ps) = p ∷ without n ps

unfoldable pub finish : ActionResult → State → State
finish r s = if r.ok then record s { loading = false; result = r.json } else record s {
  loading = false;
  err = some (error_or r (with_status (codes "Triage failed") r.status));
}

-- A new detection resets the panel; the button is there without a result, and off while loading.
unfoldable pub step : Input → State → State
unfolding finish triage_path result_of
step (show id) s =
    if id === s.detection_id
    then s
    else record { detection_id = id; result = none; loading = false; err = none; out = s.out }
step analyze s =
    if is_some s.result || s.loading
    then s
    else record s { loading = true; err = none; out = s.out ++ triage_path s.detection_id ∷ [] }
step (reply n f) s = finish (result_of f) (record s { out = without n s.out })

unfoldable pub run : List Input → State → State
unfolding step
run [] s = s
run (i ∷ is) s = run is (step i s)
