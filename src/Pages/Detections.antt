-- ===== src/Pages/Detections.antt =====
-- dashboard/app/(app)/detections/page.tsx: the filters, the drawer and the actions.
use sentinel_edr.Common.{
  ℕ, Bool, true, false, not, ◌&&◌, ◌||◌, Option, none, some, List, [], ◌∷◌, ◌++◌, length, map,
  filter, find, if◌then◌else◌, leb, nat_beq, ◌===◌, string_same, list_same, nat_same, String,
}
use sentinel_edr.Common.Text.{Text, codes, decimal}
use sentinel_edr.Common.Sorting.{sort}
use sentinel_edr.Model.{Severity, Detection, DetectionStatus, info, low, medium, high, critical}
use sentinel_edr.Calls.{
  Json, text, array, object, field, no_fields, item, no_items, texts, optional, Call, Effect,
  success, error, clear, M, ◌>>=◌, ◌>>◌, pure, emit, post_json, post_json_all, post_call, respond,
  status_path, count_ok, or_text,
}
use sentinel_edr.Incident.{Recommendation}
use sentinel_edr.Pages.{text_of, is_there, Pending, severity_name, with_status, tell}

-- `SEV_RANK[s] || 0`
unfoldable pub sev_rank : Severity → ℕ
sev_rank critical = 5
sev_rank high = 4
sev_rank medium = 3
sev_rank low = 2
sev_rank info = 1

abbrev pub same_status : DetectionStatus → DetectionStatus → Bool
same_status DetectionStatus.open_ DetectionStatus.open_ = true
same_status DetectionStatus.acknowledged DetectionStatus.acknowledged = true
same_status DetectionStatus.closed DetectionStatus.closed = true
same_status _ _ = false

-- The page's state; `link` is the parameter `id` of the URL, and `all` the list that was polled.
pub record State : Type 0 where
  pub status : Text
  pub sev : Text
  pub sel : Option Detection
  pub pending : Option (Pending Detection)
  pub all : Option (List Detection)
  pub link : Option String

unfoldable pub path : State → Text
path s =
    codes "detections?limit=300"
    ++ (if not (s.status === codes "all") then codes "&status=" ++ s.status else [])

abbrev pub list_of : Option (List Detection) → List Detection
list_of none = []
list_of (some ds) = ds

unfoldable pub dets : State → List Detection
dets s = filter (λ d. s.sev === codes "all" || severity_name d.severity === s.sev) (list_of s.all)

abbrev pub with_id : String → List Detection → Option Detection
with_id i ds = find (λ d. d.id === i) ds

-- The effect of the deep link, which runs at every new list.
abbrev pub open_found : Option Detection → State → State
open_found none s = s
open_found (some d) s = record s { sel = some d }

unfoldable pub deep_link : State → State
deep_link s = elim s.all [
  | none ↦ s
  | some ds ↦ elim s.link [
    | none ↦ s
    | some i ↦ if i === "" then s else open_found (with_id i ds) s
  ]
]

-- The effect that keeps the open drawer's status fresh; it runs at every new list and selection.
-- What it selects, if anything, is the detection as the list has it now.
abbrev pub updated : Detection → Option Detection → Option Detection
updated d none = none
updated d (some fresh) = if not (same_status fresh.status d.status) then some fresh else none

unfoldable pub stale : State → Option Detection
stale s = elim s.sel [
  | none ↦ none
  | some d ↦ elim s.all [ none ↦ none | some ds ↦ updated d (with_id d.id ds) ]
]

unfoldable pub refresh : State → State
unfolding stale
refresh s = open_found (stale s) s

-- At a new list both effects run, and both read the selection of the render: what the second one
-- selects replaces what the first one selected.
abbrev pub second_wins : Option Detection → State → State → State
second_wins none linked s = linked
second_wins (some fresh) linked s = record s { sel = some fresh }

unfoldable pub list_effects : State → State
unfolding deep_link stale
list_effects s = second_wins (stale s) (deep_link s) s

pub data Input : Type 0 where
  polled : List Detection → Input
  choose : Detection → Input
  close_drawer : Input
  set_status set_sev : Text → Input
  ask : Pending Detection → Input
  dismiss : Input

-- A step is taken once its effects have run, again those of the renders they cause: a selection
-- they make is a new one, at which the second effect runs again.
unfoldable pub step : Input → State → State
unfolding list_effects refresh
step (polled ds) s = refresh (list_effects (record s { all = some ds }))
step (choose d) s = refresh (record s { sel = some d })
step close_drawer s = record s { sel = none }
step (set_status t) s = record s { status = t }
step (set_sev t) s = record s { sev = t }
step (ask p) s = record s { pending = some p }
step dismiss s = record s { pending = none }

unfoldable pub run : List Input → State → State
unfolding step
run [] s = s
run (i ∷ is) s = run is (step i s)

abbrev pub status_phrase : Text → Text
status_phrase t =
    if t === codes "acknowledged"
    then codes "Detection acknowledged"
    else if t === codes "closed"
    then codes "Detection closed"
    else if t === codes "open"
    then codes "Detection reopened"
    else codes "Detection " ++ t

unfoldable pub set_stat : Detection → Text → M (Unit {0})
unfolding post_json status_path
set_stat d t = do
  r ← post_json (status_path (codes d.id)) (object (field (codes "status") (text t) no_fields))
  tell r (status_phrase t) (with_status (codes "Update failed") r.status)

unfoldable pub act : Pending Detection → M (Unit {0})
unfolding respond
act p = do
  r ← respond (record {
    type_ = p.type_;
    agent_id = codes p.subject.agent_id;
    target = p.target;
    reason = some (codes "from " ++ codes p.subject.rule_id);
    detection_id = some (codes p.subject.id);
  })
  tell r (p.label ++ (codes " dispatched to " ++ codes p.subject.hostname))
      (with_status (codes "Action failed") r.status)

unfoldable pub escalate : Detection → M (Unit {0})
unfolding post_json
escalate d = do
  r ← post_json (codes "cases") (
      object (
        field (codes "title")
          (text (or_text (codes d.rule_name) (codes "Detection on " ++ codes d.hostname)))
          (field (codes "severity") (text (severity_name d.severity)) (
            field (codes "agent_id") (text (codes d.agent_id)) (
              field (codes "hostname") (text (codes d.hostname)) (
                field (codes "detection_ids") (array (item (text (codes d.id)) no_items))
                  no_fields))))))
  tell r (codes "Case opened from " ++ codes d.rule_name)
      (with_status (codes "Could not open case") r.status)

abbrev pub status_call : Text → Detection → Call
status_call t d =
    post_call (status_path (codes d.id)) (object (field (codes "status") (text t) no_fields))

-- `${ok}/${rows.length} closed`
abbrev pub bulk_text : ℕ → ℕ → Text → Text
bulk_text n all t =
    decimal n
    ++ (codes "/"
        ++ (decimal all
            ++ (codes " "
                ++ (if t === codes "closed" then codes "closed" else codes "acknowledged"))))

abbrev pub bulk_toast : ℕ → ℕ → Text → Effect
bulk_toast n all message = if nat_beq n all then success message else error message

unfoldable pub bulk_stat : List Detection → Text → M (Unit {0})
unfolding status_path
bulk_stat rows t = do
  res ← post_json_all (map (status_call t) rows)
  emit (bulk_toast (count_ok res) (length rows) (bulk_text (count_ok res) (length rows) t))
  emit clear

abbrev pub rank_before : Severity → Severity → Bool
rank_before a b = leb (sev_rank b) (sev_rank a)

abbrev pub head_of : List Severity → Option Severity
head_of [] = none
head_of (x ∷ xs) = some x

-- `rows.map(severity).sort((a, b) => rank(b) - rank(a))[0]`
unfoldable pub sev_top : List Detection → Option Severity
unfolding sev_rank
sev_top rows = head_of (sort rank_before (map (λ d. d.severity) rows))

abbrev pub severity_field : Option Severity → Option Json
severity_field none = none
severity_field (some s) = some (text (severity_name s))

unfoldable pub bulk_escalate : List Detection → M (Unit {0})
unfolding post_json sev_top
bulk_escalate rows = do
  r ← post_json (codes "cases") (
      object (
        field (codes "title")
          (text (codes "Case — " ++ (decimal (length rows) ++ codes " correlated detections")))
          (optional (codes "severity") (severity_field (sev_top rows)) (
            field (codes "detection_ids") (array (texts (map (λ d. codes d.id) rows))) no_fields))))
  tell r (codes "Case opened from " ++ (decimal (length rows) ++ codes " detections"))
      (codes "Could not open case")
  emit clear

abbrev isolate_desc : Text → Text
isolate_desc host =
    codes "Cut all network traffic from " ++ (host ++ codes " (except the management server).")

abbrev pub isolate_pending : Detection → Pending Detection
isolate_pending d = record {
  subject = d;
  type_ = codes "isolate";
  label = codes "Isolation";
  target = none;
  destructive = true;
  desc = isolate_desc (codes d.hostname);
}

abbrev pub disable_pending : Detection → Text → Pending Detection
disable_pending d user = record {
  subject = d;
  type_ = codes "disable_account";
  label = codes "Account disable";
  target = some (object (field (codes "user") (text user) no_fields));
  destructive = true;
  desc = codes "Disable login for " ++ (user ++ (codes " on " ++ (codes d.hostname ++ codes ".")));
}

abbrev pub freeze_pending : Detection → Pending Detection
freeze_pending d = record {
  subject = d;
  type_ = codes "freeze";
  label = codes "Freeze";
  target = none;
  destructive = true;
  desc =
      codes "Freeze all processes on "
      ++ (codes d.hostname ++ codes " (cgroup.freeze) for forensic hold.");
}

abbrev pub disable_item : Detection → Text → List (Pending Detection)
disable_item d user =
    if is_there user && not (user === codes "root") then disable_pending d user ∷ [] else []

-- The items of a row's menu that ask for a confirmation.
unfoldable pub menu : Detection → List (Pending Detection)
menu d = isolate_pending d ∷ (disable_item d (text_of d.user) ++ freeze_pending d ∷ [])

-- What a recommendation asks about; `none` opens a case at once.
unfoldable pub recommended : Detection → Recommendation → Option (Pending Detection)
recommended d (Recommendation.isolate label) = some (isolate_pending d)
recommended d (Recommendation.disable_account label user) = some (disable_pending d user)
recommended d (Recommendation.escalate label) = none

unfoldable pub recommend : Detection → Recommendation → State → State × M (Unit {0})
unfolding recommended step escalate
recommend d r s = elim (recommended d r) [
  | none ↦ (s, escalate d)
  | some p ↦ (step (ask p) s, pure tt)
]

-- The dialog's confirmation: the pending action starts, and the dialog closes.
unfoldable pub confirm : State → State × M (Unit {0})
unfolding act step
confirm s = elim s.pending [ none ↦ (step dismiss s, pure tt) | some p ↦ (step dismiss s, act p) ]
