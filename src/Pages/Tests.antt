-- ===== src/Pages/Tests.antt =====
-- The pages at concrete detections, events and replies.
use mathlib.Core.List.{Memᴰ}
use sentinel_edr.Common.{
  ℕ, zero, suc, ◌≤◌, ◌≡◌, ◌≢◌, refl, Bool, true, false, Option, none, some, List, [], ◌∷◌, ◌++◌,
  map, length, all, any, All, String, arith, ◌===◌, string_same, not, ◌&&◌, ◌||◌, if◌then◌else◌,
  take, contains, ◌⊎◌, inl, inr,
}
use sentinel_edr.Common.Text.{Text, codes, Lacks, decimal}
use sentinel_edr.Model.{
  Severity, Detection, DetectionStatus, Agent, AgentStatus, Event, Case, CaseStatus,
}
use sentinel_edr.Calls.{
  Call, Client, Fetched, Reply, failed, replied, done, thrown, clear, reload, sending, count_ok,
  success, error, Effect,
}
use sentinel_edr.Calls.Results.{answers, is_failed}
use sentinel_edr.Pages.Detections.{
  State, polled, choose, close_drawer, run, step, with_id, sev_top, sev_rank, bulk_stat, bulk_toast,
  bulk_text, status_call, dets, path,
}
use sentinel_edr.Pages.Detections
use sentinel_edr.Pages.Drawer.{IsFresh, run-IsFresh, closed_drawer_reopened}
use sentinel_edr.Pages.Severities.{sev_top-IsHighest}
use sentinel_edr.Pages.Bulk.{bulk_stat_lem}
use sentinel_edr.Pages.Events.{
  Filters, params, hydrate, no_filters, push_filter, is_pushed, event_actions,
}
use sentinel_edr.Pages.Links.{hydrate-params, push_filter-params, holds, row_of}
use sentinel_edr.LiveList
use sentinel_edr.Pages.Rules.{Rule, toggle_call, bulk_toggle}
use sentinel_edr.Pages.Rules
use sentinel_edr.Pages.Switches.{bulk_toggle_cases}
use sentinel_edr.Pages.Endpoints
use sentinel_edr.Pages.Marks.{PendingMarked, ItemMarked, OfferMarked, dialogs-Marked}
use sentinel_edr.Pages.Cases.{Drawer, id_in}
use sentinel_edr.Pages.Cases
use sentinel_edr.Pages.Selection.{IsClosed, run-IsClosed}
use sentinel_edr.Pages.Settings.{submit, sent, quick, docker, one_line, newline}
use sentinel_edr.Pages.Commands.{commands-IsLine}
use sentinel_edr.Pages.Overview

abbrev detection : String → Severity → DetectionStatus → Detection
detection id severity status = record {
  id = id;
  ts = "";
  rule_id = "r1";
  rule_name = "Web shell";
  severity = severity;
  category = "process";
  agent_id = "a1";
  hostname = "web-1";
  user = some "eve";
  summary = "";
  mitre = [];
  tactic = none;
  status = status;
  event_ids = [];
  engine = "rules";
  assigned_to = none;
}

abbrev open_low : Detection
open_low = detection "d1" Severity.low DetectionStatus.open_

abbrev closed_low : Detection
closed_low = detection "d1" Severity.low DetectionStatus.closed

abbrev open_high : Detection
open_high = detection "d2" Severity.high DetectionStatus.open_

abbrev linked : State
linked = record {
  status = codes "all";
  sev = codes "high";
  sel = none;
  pending = none;
  all = none;
  link = some "d1";
}

-- The drawer opens by the link, follows the status, and opens again after it was closed.
followed :
    (run (polled (open_low ∷ []) ∷ polled (closed_low ∷ []) ∷ []) linked).sel ≡ some closed_low
unfolding run
followed = refl

-- A new status of the open detection wins over the link of the page.
status_wins :
    (step
      (polled (open_low ∷ record open_high { status = DetectionStatus.closed } ∷ []))
      (record linked { sel = some open_high })).sel
    ≡ some (record open_high { status = DetectionStatus.closed })
unfolding step
status_wins = refl

only_high : dets (step (polled (open_low ∷ open_high ∷ [])) linked) ≡ open_high ∷ []
unfolding dets step
only_high = refl

run-IsFresh_example : IsFresh (run (polled (open_low ∷ []) ∷ choose open_high ∷ []) linked)
run-IsFresh_example = run-IsFresh (polled (open_low ∷ []) ∷ choose open_high ∷ []) linked tt

reopened_by_link :
    ((step close_drawer linked).sel ≡ none)
    × ((step (polled (open_low ∷ [])) (step close_drawer linked)).sel ≡ some open_low)
reopened_by_link = closed_drawer_reopened linked "d1" (open_low ∷ []) open_low refl refl refl

highest_of_two :
    (s : Severity) × (sev_top (open_low ∷ open_high ∷ []) ≡ some s)
    × Memᴰ s (map (λ (r : Detection). r.severity) (open_low ∷ open_high ∷ []))
    × All
        (λ y. sev_rank y ≤ sev_rank s)
        (map (λ (r : Detection). r.severity) (open_low ∷ open_high ∷ []))
highest_of_two = sev_top-IsHighest open_low (open_high ∷ [])

-- The first call is answered, the second refused; no later one gets a reply.
abbrev replies : ℕ → Fetched
replies zero = replied (record { status = 200; text = none; json = none })
replies (suc zero) = replied (record { status = 409; text = some (codes "conflict"); json = none })
replies (suc (suc n)) = failed

abbrev start : Client
start = record { replies = replies; sent = []; effects = [] }

one_of_two :
    (bulk_stat (open_low ∷ open_high ∷ []) (codes "closed") start).1.effects
    ≡ error (codes "1/2 closed") ∷ clear ∷ []
unfolding bulk_stat sentinel_edr.Calls.post_json_all sentinel_edr.Common.Text.decimal
one_of_two = refl

one_closed : bulk_stat (open_low ∷ []) (codes "closed") start ≡ (
  done tt,
  record {
    replies = replies;
    sent = status_call (codes "closed") open_low ∷ [];
    effects = success (codes "1/1 closed") ∷ clear ∷ [];
  },
)
unfolding sentinel_edr.Calls.result_of sentinel_edr.Common.Text.decimal
one_closed = bulk_stat_lem (open_low ∷ []) (codes "closed") start

abbrev filters : Filters
filters = record { cat = codes "network"; sev = codes "all"; q = []; agent_id = []; user = [] }

hydrate-params_example : hydrate (params filters) no_filters ≡ filters
hydrate-params_example = hydrate-params filters (λ e. cc) (λ e. cc)

abbrev event : Event
event = record {
  id = "e1";
  agent_id = "a1";
  hostname = "web-1";
  ts = "";
  category = "network";
  action = "connect";
  severity = Severity.low;
  user = some "root";
  message = none;
  process = none;
  file = none;
  network = none;
  usb = none;
  auth = none;
  dlp = none;
  labels = [];
}

-- Nothing is offered on an event of root without a process or a file.
nothing_offered : event_actions event ≡ []
unfolding event_actions
nothing_offered = refl

pushed : is_pushed filters ≡ true
unfolding is_pushed
pushed = refl

-- One older row is shown.
abbrev shown_rows : LiveList.State
shown_rows = record {
  items = record { id = "e0"; ts = "2026-01-01T00:00:00Z" } ∷ [];
  loading = false;
  loading_more = false;
  has_more = false;
  connected = true;
  error = false;
  seen = "e0" ∷ [];
  newest = "2026-01-01T00:00:00Z";
  load_run = 1;
  tail_run = 1;
}

push_filter-params_example :
    (LiveList.push
      (λ t. none)
      500
      (λ r. push_filter filters event)
      (some (row_of event))
      shown_rows).items
    ≡ (if not (event.id === "" || contains shown_rows.seen event.id)
          && all (holds event) (params filters)
        then take 500 (row_of event ∷ shown_rows.items)
        else shown_rows.items)
push_filter-params_example =
    push_filter-params (λ t. none) 500 filters (λ r. push_filter filters event) event shown_rows
      pushed refl

abbrev rule : Rule
rule = record {
  id = codes "R-1";
  title = codes "Web shell";
  severity = codes "high";
  category = codes "process";
  tactic = [];
  description = [];
  auto_respond = [];
  mitre = none;
  enabled = true;
}

bulk_toggle_cases_example :
    ((rs : List Reply) × (answers start (toggle_call false rule ∷ []) ≡ map replied rs)
      × (bulk_toggle (rule ∷ []) false start ≡ (
        done tt,
        record (sending (toggle_call false rule ∷ []) start) {
          effects = Rules.bulk_toast 1 rs false ∷ clear ∷ reload ∷ [];
        },
      )))
    ⊎ ((any is_failed (answers start (toggle_call false rule ∷ [])) ≡ true)
        × (bulk_toggle (rule ∷ []) false start
            ≡ (thrown, sending (toggle_call false rule ∷ []) start)))
bulk_toggle_cases_example = bulk_toggle_cases (rule ∷ []) false start

abbrev agent : Agent
agent = record {
  id = "a1";
  hostname = "web-1";
  os = "linux";
  kernel = "6.1";
  arch = "x86_64";
  ip = "10.0.0.1";
  mac = "";
  version = "1";
  status = AgentStatus.online;
  labels = [];
  enrolled_at = "";
  last_seen = "";
  event_count = 0;
}

-- The selection of the endpoints page is isolated with no dialog before.
isolated_at_once :
    (Endpoints.bulk_isolate (agent ∷ []) start).1.sent ≡ Endpoints.isolate_call agent ∷ []
unfolding Endpoints.bulk_isolate sentinel_edr.Calls.post_json_all
isolated_at_once = refl

marked_dialogs :
    All PendingMarked (Detections.menu open_low)
    × All ItemMarked (Endpoints.menu agent)
    × All OfferMarked (event_actions event)
marked_dialogs = dialogs-Marked open_low agent event

abbrev case_a : Case
case_a = record {
  id = "c1";
  title = "Web shell";
  severity = Severity.high;
  status = CaseStatus.open_;
  assigned_to = none;
  agent_id = none;
  hostname = none;
  detection_ids = [];
  mitre = [];
  notes = [];
  created_at = "";
  updated_at = "";
  created_by = none;
}

abbrev nothing : Drawer
nothing = record { sel_id = none; detail = none; on = none }

-- The reply to a change that comes after the drawer was closed is shown when the next case is
-- opened, until that case is there.
late_reply :
    Cases.run
      (Cases.choose "c1"
        ∷ Cases.loaded (some case_a)
        ∷ Cases.close_drawer
        ∷ Cases.written case_a
        ∷ Cases.choose "c2"
        ∷ [])
      nothing
    ≡ record { sel_id = some "c2"; detail = some case_a; on = some "c2" }
unfolding Cases.run
late_reply = refl

drawer_left :
    IsClosed
      (Cases.run (Cases.choose "c1" ∷ Cases.loaded (some case_a) ∷ Cases.close_drawer ∷ []) nothing)
drawer_left =
    run-IsClosed (Cases.choose "c1" ∷ Cases.loaded (some case_a) ∷ Cases.close_drawer ∷ []) nothing
      (tt, (tt, (tt, tt))) (refl, refl)

-- A password of eight characters is sent, which the authentication service refuses.
short_password : submit (codes "old") (codes "12345678") ≡ sent (codes "old") (codes "12345678")
unfolding submit
short_password = refl

copied_lines :
    Lacks newline (one_line false (quick (codes "https://edr")))
    × Lacks newline (one_line false (docker (codes "https://edr")))
copied_lines = commands-IsLine (codes "https://edr") (omega arith) (omega arith)

-- The line of the overview.
quiet_fleet :
    Overview.build_posture (("agents_total", 3) ∷ ("agents_online", 2) ∷ []) (record {
      counts = [];
      severity = [];
      events_by_category = [];
      timeline = [];
      top_mitre = [];
    })
    ≡ codes "No open detections · 1 endpoint offline."
unfolding Overview.build_posture decimal
quiet_fleet = refl

-- A channel that is not known.
unknown_channel : Overview.sub (record event { dlp = none }) ≡ codes "Unknown channel · Audit"
unfolding Overview.sub
unknown_channel = refl
