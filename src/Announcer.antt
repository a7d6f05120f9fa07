-- ===== src/Announcer.antt =====
-- The live regions of the dashboard and the voice of new detections
-- (dashboard/components/live-announcer.tsx), over every order of messages and frames.
pub mod Spoken
mod Tests
use sentinel_edr.Common.{
  Bool, true, false, Option, none, some, List, [], ◌∷◌, ◌++◌, if◌then◌else◌, String, ◌===◌,
  string_same,
}
use sentinel_edr.Common.Text.{Text, codes}
use sentinel_edr.Model.{Detection, Severity, info, low, medium, high, critical}

pub data Level : Type 0 where
  polite assertive : Level

pub record State : Type 0 where
  pub mounted : Bool
  pub polite_text : Text
  pub assertive_text : Text
  -- the callbacks that wait for the next frame, in their order
  pub frames : List (Level × Text)

abbrev pub region : Level → State → Text
region polite s = s.polite_text
region assertive s = s.assertive_text

abbrev pub set_region : Level → Text → State → State
set_region polite t s = record s { polite_text = t }
set_region assertive t s = record s { assertive_text = t }

-- The listener is added when the regions are mounted, and deleted when they are unmounted.
abbrev pub mount : Bool → State → State
mount b s = record s { mounted = b }

-- `announce` to the mounted regions: the region is emptied, and filled at the next frame.
unfoldable pub announce : Level × Text → State → State
announce m s = if s.mounted then set_region m.0 [] (record s { frames = s.frames ++ m ∷ [] }) else s

unfoldable pub run_frames : List (Level × Text) → State → State
run_frames [] s = s
run_frames (m ∷ ms) s = run_frames ms (set_region m.0 m.1 s)

-- A frame runs the callbacks that wait.
unfoldable pub frame : State → State
unfolding run_frames
frame s = run_frames s.frames (record s { frames = [] })

unfoldable pub announce_all : List (Level × Text) → State → State
unfolding announce
announce_all [] s = s
announce_all (m ∷ ms) s = announce_all ms (announce m s)

abbrev or_word : String → Text → Text
or_word s other = if s === "" then other else codes s

abbrev message : Text → Detection → Text
message severity d =
    codes "New "
    ++ (severity
        ++ (codes " detection: "
            ++ (or_word d.rule_name (codes "rule")
                ++ (codes " on " ++ or_word d.hostname (codes "a host")))))

-- What is said of a new detection.
unfoldable pub voiced : Detection → Option (Level × Text)
voiced d = elim d.severity [
  | critical ↦ some (assertive, message (codes "critical") d)
  | high ↦ some (polite, message (codes "high") d)
  | _ ↦ none
]
