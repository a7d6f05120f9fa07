-- ===== src/Screens/Related.antt =====
-- The process that the detections page offers to kill.
use sentinel_edr.Common.{ℕ, suc, ◌≡◌, some, List, [], ◌∷◌, String, ◌∙◌, ap}
use sentinel_edr.Model.{Event}
use sentinel_edr.Screens.Detections.{pid_of, event_of, is_pid, or_event, related_pid, related_event}

-- While the page offers to kill a process, the tree that it shows is that of the same process.
pub related_pid-tree :
    (events : List Event) (ids : List String) (n : ℕ)
    → related_pid events ids ≡ some (suc n)
    → pid_of (related_event events ids) ≡ some (suc n)
unfolding related_pid related_event
related_pid-tree events [] n h = cc
related_pid-tree events (id ∷ ids) n h =
    ap (λ o. pid_of (or_event (event_of events id) (is_pid o) (related_event events ids))) h ∙ h
