-- ===== src/Screens/Detections.antt =====
-- web/src/pages/Detections.tsx: the rows, the events behind a detection, the drawer's actions, and
-- the drawer with its triage over every order of clicks and replies. The triage of a detection has
-- the type `T`.
use sentinel_edr.Common.{
  is_some, drop, ℕ, suc, Bool, true, false, not, ◌&&◌, ◌||◌, Option, none, some, List, [], ◌∷◌,
  ◌++◌, filter, find, if◌then◌else◌, String, ◌===◌, string_same, list_same, nat_same,
}
use sentinel_edr.Common.Text.{Text, codes, starts_with, trim_start}
use sentinel_edr.Model.{Event, Process, Detection, DetectionStatus, open_, acknowledged, closed}
use sentinel_edr.Filters.{match_text}
use sentinel_edr.Calls.{Json, number, text, object, field, no_fields, ResponseArgs}
use sentinel_edr.Screens.{
  Answered, error_of, Effect, toast, refresh_detections, severity_name, cell, optional_cell,
}

abbrev pub status_name : DetectionStatus → String
status_name open_ = "open"
status_name acknowledged = "acknowledged"
status_name closed = "closed"

-- `canAct`
abbrev pub can_act : Option Text → Bool
can_act none = false
can_act (some role) = role === codes "admin" || role === codes "analyst"

-- `!s || d === s`
abbrev pub chosen : String → String → Bool
chosen s d = s === "" || d === s

unfoldable pub rows : Text → String → String → List Detection → List Detection
rows q status sev detections =
    filter
      (λ d.
        chosen status (status_name d.status)
        && chosen sev (severity_name d.severity)
        && match_text q (
            cell d.hostname
            ∷ optional_cell d.user
            ∷ cell d.rule_name
            ∷ cell d.rule_id
            ∷ cell d.summary
            ∷ optional_cell d.tactic
            ∷ cell d.engine
            ∷ []))
      detections

-- `ev?.process?.pid`
abbrev pub pid_of_process : Option Process → Option ℕ
pid_of_process none = none
pid_of_process (some p) = p.pid

abbrev pub pid_of : Option Event → Option ℕ
pid_of none = none
pid_of (some e) = pid_of_process e.process

abbrev pub event_of : List Event → String → Option Event
event_of events id = find (λ e. e.id === id) events

unfoldable pub related_pid : List Event → List String → Option ℕ
related_pid events [] = none
related_pid events (id ∷ ids) = pid_of (event_of events id)

-- A pid that is truthy.
abbrev pub is_pid : Option ℕ → Bool
is_pid (some (suc n)) = true
is_pid _ = false

abbrev pub or_event : Option Event → Bool → Option Event → Option Event
or_event ev true later = ev
or_event ev false later = later

-- The event whose process tree the drawer shows
unfoldable pub related_event : List Event → List String → Option Event
related_event events [] = none
related_event events (id ∷ ids) =
    let later = related_event events ids in
    or_event (event_of events id) (is_pid (pid_of (event_of events id))) later

unfoldable pub respond_args : Detection → Text → Option Json → ResponseArgs
respond_args d type_ target = record {
  type_ = type_;
  agent_id = codes d.agent_id;
  target = target;
  reason = some (codes "from detection " ++ codes d.rule_id);
  detection_id = some (codes d.id);
}

unfoldable pub respond : Detection → Text → Answered → List Effect
respond d type_ r = elim (error_of r) [
  | none ↦ toast (type_ ++ (codes " dispatched to " ++ codes d.hostname)) false ∷ []
  | some e ↦ toast (codes "action failed: " ++ e) true ∷ []
]

abbrev pub kill_action : Detection → Option ℕ → List ResponseArgs
kill_action d (some (suc n)) =
    respond_args d (codes "kill_process")
      (some (object (field (codes "pid") (number (suc n)) no_fields)))
    ∷ []
kill_action d _ = []

abbrev pub disable_action : Detection → Option String → List ResponseArgs
disable_action d none = []
disable_action d (some u) =
    if u === ""
    then []
    else respond_args d (codes "disable_account")
        (some (object (field (codes "user") (text (codes u)) no_fields)))
      ∷ []

-- The responses that the drawer offers, all of which are confirmed first.
unfoldable pub actions : Bool → List Event → Detection → List ResponseArgs
unfolding respond_args related_pid
actions may events d =
    if may
    then kill_action d (related_pid events d.event_ids)
      ++ (respond_args d (codes "isolate") none ∷ disable_action d d.user)
    else []

-- What is said once the call of `setStat` is answered.
unfoldable pub stat_effects : DetectionStatus → Answered → List Effect
stat_effects s r = elim (error_of r) [
  | none ↦ toast (codes "detection " ++ codes (status_name s)) false ∷ refresh_detections ∷ []
  | some e ↦ toast (codes "failed: " ++ e) true ∷ []
]

-- `String(e).replace(/^Error:\s*/, "")`
abbrev pub without_error : Text → Text
without_error e = if starts_with (codes "Error:") e then trim_start (drop 6 e) else e

pub record State (T : Type 0) : Type 0 where
  pub sel : Option Detection
  pub triage : Option T
  pub triaging : Bool
  pub triage_err : Text

pub data Input (T : Type 0) : Type 0 where
  choose : Detection → Input T
  close_drawer : Input T
  -- the call of `setStat` is answered
  stat_done : DetectionStatus → Answered → Input T
  analyze : Input T
  analyzed : T → Input T
  -- with the text of the error
  analysis_failed : Text → Input T

abbrev pub id_of : Option Detection → Option String
id_of none = none
id_of (some d) = some d.id

abbrev pub same_id : Option String → Option String → Bool
same_id none none = true
same_id (some i) (some j) = i === j
same_id _ _ = false

abbrev pub marked : DetectionStatus → Option Detection → Option Detection
marked st none = none
marked st (some d) = some (record d { status = st })

module _ {T : Type 0} where
  -- `setSel`, and the effect that runs when the id has changed
  unfoldable pub select : Option Detection → State T → State T
  select d s =
      if same_id (id_of d) (id_of s.sel)
      then record s { sel = d }
      else record s { sel = d; triage = none; triage_err = [] }

  abbrev pub set_status : DetectionStatus → Option Text → State T → State T
  set_status st none s = record s { sel = marked st s.sel }
  set_status st (some e) s = s

  -- The button is there in an open drawer without a triage, and off while one is on its way.
  abbrev pub can_analyze : State T → Bool
  can_analyze s = is_some s.sel && not (is_some s.triage) && not s.triaging

  unfoldable pub step : Input T → State T → State T
  unfolding select
  step (choose d) s = select (some d) s
  step close_drawer s = select none s
  step (stat_done st r) s = set_status st (error_of r) s
  step analyze s = if can_analyze s then record s { triaging = true; triage_err = [] } else s
  step (analyzed t) s = record s { triage = some t; triaging = false }
  step (analysis_failed e) s = record s { triage_err = without_error e; triaging = false }

  unfoldable pub run : List (Input T) → State T → State T
  unfolding step
  run [] s = s
  run (i ∷ is) s = run is (step i s)
