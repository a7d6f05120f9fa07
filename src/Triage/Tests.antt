-- ===== src/Triage/Tests.antt =====
-- The panel at concrete replies.
use sentinel_edr.Common.{◌≡◌, refl, false, none, some, [], ◌∷◌}
use sentinel_edr.Common.Text.{codes}
use sentinel_edr.Calls.{text, replied}
use sentinel_edr.Triage.{State, show, analyze, reply, run}

abbrev start : State
start = record { detection_id = codes "d1"; result = none; loading = false; err = none; out = [] }

-- The reply about one detection is shown under the next.
late_triage :
    run
      (analyze
        ∷ show (codes "d2")
        ∷ reply 0 (
            replied
              (record { status = 200; text = none; json = some (text (codes "d1 is benign")) }))
        ∷ [])
      start
    ≡ record start { detection_id = codes "d2"; result = some (text (codes "d1 is benign")) }
unfolding run
late_triage = refl
