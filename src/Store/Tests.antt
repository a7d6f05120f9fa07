-- ===== src/Store/Tests.antt =====
-- The store at concrete inputs.
use sentinel_edr.Common.{
  String, ◌≡◌, refl, Bool, true, none, some, List, [], ◌∷◌, ◌++◌, string_same,
}
use sentinel_edr.Model.{Agent, AgentStatus, Detection, DetectionStatus, Severity}
use sentinel_edr.Store.Valid.{IsValid, run-IsValid_start}
use sentinel_edr.Store.Alerts.{alert_once}
use sentinel_edr.Store.{Input, Message, initial, run, on_detection, alert_text, is_critical}

abbrev any_order : String → String → Bool
any_order x y = true

abbrev box : String → String → Agent
box id hostname = record {
  id = id;
  hostname = hostname;
  os = "linux";
  kernel = "6.1";
  arch = "x86_64";
  ip = "10.0.0.1";
  mac = "";
  version = "1";
  status = AgentStatus.online;
  labels = [];
  enrolled_at = "";
  last_seen = "";
  event_count = 0;
}

abbrev web_shell : Detection
web_shell = record {
  id = "d1";
  ts = "";
  rule_id = "r1";
  rule_name = "Web shell";
  severity = Severity.critical;
  category = "process";
  agent_id = "a1";
  hostname = "web-1";
  user = none;
  summary = "";
  mitre = [];
  tactic = none;
  status = DetectionStatus.open_;
  event_ids = [];
  engine = "rules";
  assigned_to = none;
}

abbrev inputs : List Input
inputs =
    Input.agents_reply (some (box "a1" "web-1" ∷ []))
    ∷ Input.live "t1" (Message.detection web_shell)
    ∷ Input.live "t2" (Message.detection web_shell)
    ∷ []

run-IsValid_start_example : IsValid (run any_order initial inputs)
run-IsValid_start_example = run-IsValid_start any_order inputs ((refl, tt), (tt, (tt, tt)))

-- What came before: the agents, and a form of the detection that was closed already.
abbrev closed_before : List Input
closed_before =
    Input.agents_reply (some (box "a1" "web-1" ∷ []))
    ∷ Input.live "t0" (Message.detection (record web_shell { status = DetectionStatus.closed }))
    ∷ []

alert_once_example :
    let s = run any_order initial closed_before in
    ((on_detection "t1" web_shell s).toasts
      ≡ s.toasts
        ++ record { id = "t1"; text = alert_text web_shell; crit = some (is_critical web_shell) }
          ∷ [])
    × ((on_detection "t2" web_shell (run any_order (on_detection "t1" web_shell s) inputs)).toasts
        ≡ (run any_order (on_detection "t1" web_shell s) inputs).toasts)
alert_once_example =
    alert_once any_order "t1" "t2" web_shell web_shell closed_before inputs refl refl refl refl
