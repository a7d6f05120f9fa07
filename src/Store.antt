-- ===== src/Store.antt =====
-- The embedded console's store (web/src/store.tsx): the lists that its screens show, the toasts,
-- and the handler of the live feed. A fetch is an input when its reply comes; the toasts' random
-- ids come with the inputs; the order of `localeCompare` is a parameter.
pub mod Rows
pub mod Valid
pub mod Alerts
mod Tests
use sentinel_edr.Common.{
  ℕ, String, ◌≡◌, Bool, true, false, not, ◌&&◌, ◌||◌, Option, none, some, List, [], ◌∷◌, ◌++◌,
  StrictEq, ◌===◌, string_same, contains, filter, take, if◌then◌else◌, get_or,
}
use sentinel_edr.Common.Text.{Text, codes, to_upper}
use sentinel_edr.Common.Sorting.{sort}
use sentinel_edr.Model.{
  Event, Agent, Detection, DetectionStatus, ResponseAction, Case, Severity, Overview,
}

pub record Toast : Type 0 where
  pub id : String
  pub text : Text
  pub crit : Option Bool

pub record State : Type 0 where
  pub overview : Option Overview
  pub agents : List Agent
  pub events : List Event
  pub detections : List Detection
  pub responses : List ResponseAction
  pub cases : List Case
  pub toasts : List Toast
  pub seen_det : List String

abbrev pub initial : State
initial = record {
  overview = none;
  agents = [];
  events = [];
  detections = [];
  responses = [];
  cases = [];
  toasts = [];
  seen_det = [];
}

abbrev pub cap : ℕ
cap = 400

-- What the live feed delivers. `stats` is a type of its messages that no branch handles.
pub data Message : Type 0 where
  event : Event → Message
  detection : Detection → Message
  response : ResponseAction → Message
  agent : Agent → Message
  case_ : Case → Message
  stats : Message

-- A reply of a list is `none` where the server sent null. A fetch that fails is no input: its
-- error is dropped.
pub data Input : Type 0 where
  overview_reply : Overview → Input
  agents_reply : Option (List Agent) → Input
  events_reply : Option (List Event) → Input
  detections_reply : Option (List Detection) → Input
  responses_reply : Option (List ResponseAction) → Input
  cases_reply : Option (List Case) → Input
  toast : String → Text → Option Bool → Input
  dismiss : String → Input
  live : String → Message → Input

abbrev pub dismiss_toast : String → State → State
dismiss_toast id s = record s { toasts = filter (λ x. not (x.id === id)) s.toasts }

abbrev pub push_toast : String → Text → Option Bool → State → State
push_toast id text crit s = record s {
  toasts = s.toasts ++ record { id = id; text = text; crit = crit } ∷ [];
}

-- `[x, ...prev.filter((y) => y.id !== x.id)]`
abbrev pub put {ℓ} : {A : Type ℓ} → (A → String) → A → List A → List A
put id x prev = x ∷ filter (λ y. not (id y === id x)) prev

abbrev pub severity_text : Severity → Text
severity_text Severity.info = codes "info"
severity_text Severity.low = codes "low"
severity_text Severity.medium = codes "medium"
severity_text Severity.high = codes "high"
severity_text Severity.critical = codes "critical"

abbrev pub alert_text : Detection → Text
alert_text d =
    to_upper (severity_text d.severity)
    ++ (codes " · " ++ (codes d.rule_name ++ (codes " @ " ++ codes d.hostname)))

abbrev pub is_open : Detection → Bool
is_open d = elim d.status [ DetectionStatus.open_ ↦ true | _ ↦ false ]

abbrev pub is_critical : Detection → Bool
is_critical d = elim d.severity [ Severity.critical ↦ true | _ ↦ false ]

abbrev pub is_alarming : Detection → Bool
is_alarming d = elim d.severity [ Severity.critical ↦ true | Severity.high ↦ true | _ ↦ false ]

-- The first open form of a detection is noted, and raises a toast if it is critical or high.
unfoldable pub note_detection : String → Detection → State → State
note_detection toast_id d s =
    let noted = record s { seen_det = d.id ∷ s.seen_det } in
    if not (contains s.seen_det d.id) && is_open d
    then (if is_alarming d
        then push_toast toast_id (alert_text d) (some (is_critical d)) noted
        else noted)
    else s

unfoldable pub on_detection : String → Detection → State → State
on_detection toast_id d s =
    note_detection toast_id d (record s { detections = take cap (put (λ x. x.id) d s.detections) })

abbrev pub done_text : ResponseAction → Text
done_text r =
    codes "Response " ++ (codes r.type_ ++ (codes " → " ++ (codes r.hostname ++ codes ": done")))

unfoldable pub on_response : String → ResponseAction → State → State
on_response toast_id r s =
    let next = record s { responses = take cap (put (λ x. x.id) r s.responses) } in
    if r.status === "completed" then push_toast toast_id (done_text r) none next else next

module _ (locale_before : String → String → Bool) where
  abbrev pub by_hostname : Agent → Agent → Bool
  by_hostname x y = locale_before x.hostname y.hostname

  unfoldable pub on_agent : Agent → State → State
  on_agent a s = record s {
    agents = sort by_hostname (filter (λ x. not (x.id === a.id)) s.agents ++ a ∷ []);
  }

  abbrev pub on_message : String → Message → State → State
  on_message toast_id (Message.event e) s = record s { events = take cap (e ∷ s.events) }
  on_message toast_id (Message.detection d) s = on_detection toast_id d s
  on_message toast_id (Message.response r) s = on_response toast_id r s
  on_message toast_id (Message.agent a) s = on_agent a s
  on_message toast_id (Message.case_ c) s = record s { cases = put (λ x. x.id) c s.cases }
  on_message toast_id Message.stats s = s

  unfoldable pub step : State → Input → State
  step s (Input.overview_reply o) = record s { overview = some o }
  step s (Input.agents_reply a) = record s { agents = get_or a [] }
  step s (Input.events_reply e) = record s { events = get_or e [] }
  step s (Input.detections_reply d) = record s { detections = get_or d [] }
  step s (Input.responses_reply r) = record s { responses = get_or r [] }
  step s (Input.cases_reply c) = record s { cases = get_or c [] }
  step s (Input.toast id text crit) = push_toast id text crit s
  step s (Input.dismiss id) = dismiss_toast id s
  step s (Input.live toast_id m) = on_message toast_id m s

  abbrev pub run : State → List Input → State
  run s [] = s
  run s (i ∷ is) = run (step s i) is
