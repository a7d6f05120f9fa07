-- ===== src/Screens/Tests.antt =====
-- The pages of the embedded console at concrete lists, clicks and replies.
use Prim.Native.Nat.{Ordering}
use sentinel_edr.Common.{
  ℕ, ◌≡◌, refl, true, false, Option, none, some, [], ◌∷◌, length, filter, All, List, ◌⊎◌,
  if◌then◌else◌, ◌===◌, nat_same, String,
}
use sentinel_edr.Common.Text.{Text, codes, decimal, to_lower, lower}
use sentinel_edr.Model.{
  Agent, AgentStatus, online, isolated, Detection, Event, Case, critical, info, open_, closed,
  Process,
}
use sentinel_edr.Session.{Outcome}
use sentinel_edr.Filters.{State, Direction}
use sentinel_edr.Screens.{Answered, lost, received, Effect, toast, refresh_agents}
use sentinel_edr.Screens.Confirm.{arm, confirm, cancel, fired, initial, runs}
use sentinel_edr.Screens.Clicks.{runs-confirmed, confirmed}
use sentinel_edr.Screens.Counts.{count, bump}
use sentinel_edr.Screens.Endpoints.{segments, hl, marked, act, actions}
use sentinel_edr.Screens
use sentinel_edr.Screens.Endpoints
use sentinel_edr.Screens.Segments.{counts-rows}
use sentinel_edr.Screens.Highlight.{Marks, hl-Marks}
use sentinel_edr.Screens.Detections.{
  choose, close_drawer, stat_done, run, related_pid, related_event,
}
use sentinel_edr.Screens.Detections
use sentinel_edr.Screens.Cases.{Item, timeline, opened_item, note_request}
use sentinel_edr.Screens.Timeline.{timeline-IsSorted, others, oldest, Chronological}
use sentinel_edr.Screens.Events.{event_rows}
use sentinel_edr.Screens.Lists.{by_class}

-- A click on the confirmation after the timer has fired runs nothing.
expired_click : runs (arm ∷ fired ∷ confirm ∷ arm ∷ confirm ∷ []) initial ≡ 1
unfolding runs
expired_click = refl

runs-confirmed_example :
    runs (arm ∷ cancel ∷ confirm ∷ arm ∷ confirm ∷ []) initial
    ≡ confirmed (arm ∷ cancel ∷ confirm ∷ arm ∷ confirm ∷ [])
runs-confirmed_example = runs-confirmed (arm ∷ cancel ∷ confirm ∷ arm ∷ confirm ∷ [])

abbrev agent : String → AgentStatus → Agent
agent id status = record {
  id = id;
  hostname = "web-01";
  os = "linux";
  kernel = "6.1";
  arch = "x86_64";
  ip = "10.0.0.7";
  mac = "aa:bb";
  version = "1.0";
  status = status;
  labels = [];
  enrolled_at = "t0";
  last_seen = "t1";
  event_count = 3;
}

-- The number of its characters stands for a date's time.
abbrev length_of : String → ℕ
length_of s = length (codes s)

abbrev collate : Text → Text → Ordering
collate s t = Ordering.eq

abbrev by_host : State
by_host = record { sort_key = "hostname"; dir = Direction.ascending }

counts-rows_example :
    All
      (λ k.
        count k (Endpoints.counts (agent "a" online ∷ agent "b" isolated ∷ []))
        ≡ length (
            Endpoints.rows length_of collate [] k by_host
              (agent "a" online ∷ agent "b" isolated ∷ [])))
      segments
counts-rows_example =
    counts-rows length_of collate (agent "a" online ∷ agent "b" isolated ∷ []) by_host

-- The part that is found is marked as it is written.
host_marked :
    hl to_lower (codes "Web-01") (codes "B-0") ≡ marked (codes "We") (codes "b-0") (codes "1")
unfolding hl
host_marked = refl

-- The lower case of a capital I with a dot above is two code units.
abbrev lower_dotted : Text → Text
lower_dotted [] = []
lower_dotted (c ∷ s) = let rest = lower_dotted s in if c === 304 then 105 ∷ 775 ∷ rest else c ∷ rest

-- The mark is then one place too far to the right.
mark_shifted :
    hl lower_dotted (304 ∷ codes "ab") (codes "a") ≡ marked (304 ∷ codes "a") (codes "b") []
unfolding hl
mark_shifted = refl

hl-Marks_example :
    Marks to_lower (codes "Web-01") (codes "B-0") (hl to_lower (codes "Web-01") (codes "B-0"))
hl-Marks_example =
    hl-Marks to_lower (codes "Web-01") b'B' (codes "-0")
      (record { each = lower; of_query = refl; of_text = refl; of_part = λ i n. refl })

-- An isolated endpoint is released without a second click.
release_at_once :
    actions true (agent "a" isolated)
    ≡ (codes "unisolate", false) ∷ (codes "block_usb", true) ∷ (codes "block_upload", true) ∷ []
unfolding actions
release_at_once = refl

-- What a refused action says.
refused_act :
    act (agent "a" online) (codes "isolate") (received (Outcome.failed 403 (codes "forbidden")))
    ≡ toast (codes "action failed: Error: 403 forbidden") true ∷ []
unfolding act Screens.error_of decimal
refused_act = refl

abbrev detection : String → Detection
detection id = record {
  id = id;
  ts = "t2";
  rule_id = "R1";
  rule_name = "shell";
  severity = critical;
  category = "process";
  agent_id = "a";
  hostname = "web-01";
  user = none;
  summary = "";
  mitre = [];
  tactic = none;
  status = open_;
  event_ids = "e1" ∷ [];
  engine = "sigma";
  assigned_to = none;
}

abbrev closed_drawer : Detections.State ℕ
closed_drawer = record { sel = none; triage = none; triaging = false; triage_err = [] }

-- The reply to a change of one detection's status marks the detection that is open by then.
late_status :
    (run
      (choose (detection "x")
        ∷ choose (detection "y")
        ∷ stat_done closed (received (Outcome.json []))
        ∷ [])
      closed_drawer).sel
    ≡ some (record (detection "y") { status = closed })
unfolding run Screens.error_of
late_status = refl

-- A triage that is asked for one detection is shown under the next.
late_triage_shown :
    (run
      (choose (detection "x")
        ∷ Detections.analyze
        ∷ choose (detection "y")
        ∷ Detections.analyzed 7
        ∷ [])
      closed_drawer).triage
    ≡ some 7
unfolding run
late_triage_shown = refl

abbrev case_1 : Case
case_1 = record {
  id = "c1";
  title = "incident";
  severity = critical;
  status = open_;
  assigned_to = none;
  agent_id = none;
  hostname = none;
  detection_ids = [];
  mitre = [];
  notes = record { ts = "t"; author = "ana"; body = "seen" } ∷ [];
  created_at = "";
  updated_at = "t3";
  created_by = none;
}

abbrev timed : List Item
timed = timeline length_of case_1 (detection "x" ∷ [])

timeline-IsSorted_example :
    Chronological length_of timed
    × (length (filter (λ i. true) timed)
        ≡ length (filter (λ i. true) (opened_item case_1 ∷ others case_1 (detection "x" ∷ []))))
    × ((oldest length_of case_1 (others case_1 (detection "x" ∷ [])) ≡ false)
        ⊎ ((rest : List Item) × (timed ≡ opened_item case_1 ∷ rest)))
timeline-IsSorted_example = timeline-IsSorted length_of case_1 (detection "x" ∷ []) (λ i. true)

-- A note of white space is not sent.
blank_note : note_request (codes "c1") (codes "  ") ≡ none
unfolding note_request
blank_note = refl

abbrev event : Option Process → Event
event p = record {
  id = "e1";
  agent_id = "a";
  hostname = "web-01";
  ts = "t";
  category = "process";
  action = "exec";
  severity = info;
  user = none;
  message = none;
  process = p;
  file = none;
  network = none;
  usb = none;
  auth = none;
  dlp = none;
  labels = [];
}

-- An event with no user is found by the word undefined.
undefined_found : event_rows (codes "Undefined") "" "" (event none ∷ []) ≡ event none ∷ []
unfolding event_rows
undefined_found = refl

-- An event without a classifier counts as unknown.
unknown_class : count "unknown" (by_class (event none ∷ [])) ≡ 1
unfolding by_class count bump
unknown_class = refl
